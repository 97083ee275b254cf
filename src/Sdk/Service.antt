-- ===== src/Sdk/Service.antt =====
-- `OapServer` of sdks/typescript/src/server.ts over any `ReceiptStore`. `handleInvoke` awaits the policy
-- hook and the action's handler, and other requests may run meanwhile: it is three functions, for
-- what runs before, between and after.
use oap_spec.Prelude.{
  ℕ, String, Bool, true, false, not, ◌&&◌, ◌||◌, Option, none, some, List, [], ◌∷◌, ◌++◌, ◌+s◌,
  ◌=s=◌, ◌==◌, ltb, if◌then◌else◌, lookup, is_some, ◌⊎◌, inl, inr,
}
use oap_spec.Json.{
  Json, undefined, null, str, arr, obj, Items, nil, cons, Fields, end, field, canonicalize,
}
use oap_spec.Server.{Host, Draw}
use oap_spec.Server.RateLimit.{Call, key_of}
use oap_spec.Server.Receipts.{Report, or_null, hash_of, or_empty, decision_json, signatures_json}
use oap_spec.Server.Invoke.{
  Envelope, Response, refused, failed, succeeded, is_complete, or_blank, is_bearer,
}
use oap_spec.Sdk.{Receipt, Subscription, Limit, nan, plus, minus, ReceiptStore}

-- An ActionDefinition, as far as the server reads it; an rpm that is missing is 0.
pub record Action : Type 0 where
  pub id : String
  pub requires_auth : Option Bool
  pub side_effects : String
  pub rpm : ℕ

-- The Map of the actions.
abbrev pub Actions : Type 0
Actions = List (String × Action)

-- `action()`: none is a throw.
unfoldable pub register : Action → Actions → Option Actions
register a actions =
    if a.id =s= ""
    then none
    else if is_some (lookup a.id actions)
    then none
    else some (actions ++ (a.id, a) ∷ [])

unfoldable pub needs_token : Action → Bool
needs_token a = elim a.requires_auth [
  | some b ↦ b
  | none ↦ (a.side_effects =s= "write") || (a.side_effects =s= "external")
]

-- What the policy hook comes to; an empty reason is a missing one.
pub data Decision : Type 0 where
  allows : Decision
  denies : (rules : List String) → (reason : Option String) → Decision
  throws : Decision

-- What an action's handler comes to; `status` 0 and `code` "" are missing ones.
pub data Result (N : Type 0) : Type 0 where
  returns : Json N → Result N
  raises : (status : ℕ) → (code : String) → Result N

-- A call whose checks have passed.
pub record Pending (N : Type 0) : Type 0 where
  pub action_id : String
  pub principal : String
  pub agent : String
  pub input : Json N

abbrev strings : {N : Type 0} → List String → Items N
strings [] = nil
strings (s ∷ ss) = cons (str s) (strings ss)

module _ {N S : Type 0} (host : Host N) (store : ReceiptStore N S) where
  -- The fields of `core`, and then others.
  unfoldable pub core_fields : Draw → Report N → (previous : String) → Fields N → Fields N
  core_fields draw report previous rest =
      field "receipt_id" (str ("urn:oap:receipt:" +s draw.ulid)) (
        field "type" (str report.type') (
          field "timestamp" (str draw.now) (
            field "principal_did" (str report.principal_did) (
              field "agent_did" (or_null report.agent_did) (
                field "tool_did" (str host.tool_did) (
                  field "action_id" (or_null report.action_id) (
                    field "input_hash" (str (hash_of host (or_empty host report.input))) (
                      field "output_hash" (str (hash_of host (or_empty host report.output))) (
                        field "cost"
                          (obj (field "amount" (str "0") (field "currency" (str "EUR") end)))
                          (field "policy_decisions"
                            (arr (cons (decision_json host draw report.decision) nil))
                            (field "previous_receipt_hash" (str previous) rest)))))))))))

  unfoldable pub make_receipt : Draw → Report N → (previous : String) → Receipt N
  make_receipt draw report previous =
      let value =
        host.sign (canonicalize host.stringify (obj (core_fields draw report previous end))) in
      let body =
        obj (
          core_fields draw report previous (field "signatures" (signatures_json host value) end)) in
      record {
        receipt_id = "urn:oap:receipt:" +s draw.ulid;
        principal_did = report.principal_did;
        body = body;
        self_hash = hash_of host body;
      }

  unfoldable pub persist_receipt : Draw → Report N → S → Receipt N × S
  persist_receipt draw report s =
      let receipt = make_receipt draw report (store.get_chain_tip s) in
      (receipt, store.set_chain_tip receipt.self_hash (store.insert_receipt receipt s))

  -- `handleInvoke` up to the policy hook.
  unfoldable pub begin_invoke :
      Actions
      → Call
      → (authorization : String) → Envelope N
      → (input : Json N) → S
      → (Response N ⊎ Pending N) × S
  begin_invoke actions call authorization e input s =
      if not (is_complete host e)
      then (inl (refused 400 "invalid_envelope"), s)
      else if not (or_blank host e.oap_version =s= "1.0")
      then (inl (refused 400 "unsupported_version"), s)
      else elim (lookup (or_blank host e.action) actions) [
        | none ↦ (inl (refused 404 "action_not_found"), s)
        | some a ↦
            if needs_token a && not (is_bearer authorization)
            then (inl (refused 401 "auth_required"), s)
            else let pending : Pending N = record {
              action_id = a.id;
              principal = or_blank host e.principal_did;
              agent = or_blank host e.agent_did;
              input = input;
            } in
              let (next, counted) =
                store.rate_bucket_increment (key_of host.show pending.principal a.id call.bucket_at)
                  60000 (record { now = call.now; cleans = call.collects }) s in
              if a.rpm == 0
              then (inr pending, s)
              else if ltb a.rpm next
              then (inl (refused 429 "rate_limited"), counted)
              else (inr pending, counted)
      ]

  abbrev report_of : (type : String) → Pending N → (output : Json N) → Option (Json N) → Report N
  report_of type p output decision = record {
    type' = type;
    principal_did = p.principal;
    agent_did = some p.agent;
    action_id = some p.action_id;
    input = p.input;
    output = output;
    decision = decision;
  }

  -- A reason that is missing is an entry that is undefined.
  abbrev denial_json : Draw → List String → Option String → Json N
  denial_json draw rules reason = obj (
      field "id" (str ("pol_" +s draw.policy_ulid)) (
        field "outcome" (str "deny") (
          field "rules" (arr (strings rules))
            (field "reason" (elim reason [ none ↦ undefined | some t ↦ str t ]) end))))

  abbrev no_rules : Draw → Json N
  no_rules draw = obj (
      field "id" (str ("pol_" +s draw.policy_ulid))
        (field "outcome" (str "allow") (field "rules" (arr nil) end)))

  -- From the decision of the hook to the handler; none is the call of the handler.
  unfoldable pub after_policy : Draw → Pending N → Decision → S → Option (Response N) × S
  after_policy draw p allows s = (none, s)
  after_policy draw p throws s = (some (refused 500 "policy_error"), s)
  after_policy draw p (denies rules reason) s =
      let (r, after) =
        persist_receipt draw
          (report_of "invocation_denied" p null (some (denial_json draw rules reason))) s in
      (some (failed 403 "policy_denied" r.receipt_id), after)

  -- From the handler's result on.
  unfoldable pub after_handler : Draw → Pending N → Result N → S → Response N × S
  after_handler draw p (raises status code) s =
      let (r, after) =
        persist_receipt draw (report_of "invocation_error" p null (some (no_rules draw))) s in
      (
        failed (if status == 0 then 500 else status) (if code =s= "" then "internal" else code)
            r.receipt_id,
        after,
      )
  after_handler draw p (returns output) s =
      let (r, after) = persist_receipt draw (report_of "invocation" p output none) s in
      (succeeded output r.receipt_id r.self_hash, after)

  -- `handleInvoke`, if no other request runs meanwhile; a server without a hook has one that allows.
  unfoldable pub handle_invoke :
      Actions
      → (policy : Pending N → Decision) → (handler : Pending N → Result N) → Draw
      → Call
      → (authorization : String) → Envelope N
      → (input : Json N) → S
      → Response N × S
  handle_invoke actions policy handler draw call authorization e input s =
      let (begun, t) = begin_invoke actions call authorization e input s in
      elim begun [
        | inl answer ↦ (answer, t)
        | inr p ↦
            let (denied, u) = after_policy draw p (policy p) t in
            elim denied [ some answer ↦ (answer, u) | none ↦ after_handler draw p (handler p) u ]
      ]

  abbrev at_most_500 : Limit → Limit
  at_most_500 nan = nan
  at_most_500 (plus n) = plus (if ltb 500 n then 500 else n)
  at_most_500 (minus n) = minus n

  -- `handleAudit`; a limit that is missing is 100.
  unfoldable pub handle_audit : (principal : String) → Option Limit → S → List (Receipt N)
  handle_audit principal given s =
      let limit = at_most_500 (elim given as (λ _. Limit) [ none ↦ plus 100 | some l ↦ l ]) in
      if principal =s= ""
      then store.all_receipts limit s
      else store.receipts_by_principal principal limit s

  -- `handleDelete`: the number of deleted receipts.
  unfoldable pub handle_delete : (principal : String) → S → Option ℕ × S
  handle_delete principal s =
      if principal =s= ""
      then (none, s)
      else let (n, after) = store.delete_by_principal principal s in (some n, after)

  -- `handleIncidentCreate`; `body` is the incident with its id and time.
  unfoldable pub handle_incident_create :
      (admin_token given : Option String) → (body : Json N) → S → Bool × S
  handle_incident_create none given body s = (true, store.insert_incident body s)
  handle_incident_create (some token) given body s =
      let accepted = elim given as (λ _. Bool) [ none ↦ false | some g ↦ g =s= token ] in
      if (token =s= "") || accepted then (true, store.insert_incident body s) else (false, s)

  -- `handleBilling`
  unfoldable pub handle_billing : (principal : String) → S → Option Subscription
  handle_billing principal s =
      if principal =s= "" then none else store.active_subscription principal s

  -- `handleSubscribe`; `reply` is the subscription as JSON.
  unfoldable pub handle_subscribe :
      Draw
      → (principal : String) → (agent : Option String) → (tier : String) → (request reply : Json N)
      → S
      → Option Subscription × S
  handle_subscribe draw principal agent tier request reply s =
      if principal =s= ""
      then (none, s)
      else let sub : Subscription = record {
        subscription_id = draw.ulid;
        principal_did = principal;
        agent_did = agent;
        tier = if tier =s= "" then "free" else tier;
        status = "active";
        created_at = draw.now;
        canceled_at = none;
      } in
        let report : Report N = record {
          type' = "subscription";
          principal_did = principal;
          agent_did = agent;
          action_id = none;
          input = request;
          output = reply;
          decision = none;
        } in
        let (_, after) = persist_receipt draw report (store.insert_subscription sub s) in
        (some sub, after)

  -- `handleUnsubscribe`
  unfoldable pub handle_unsubscribe : (id now : String) → S → Bool × S
  handle_unsubscribe id now s = store.cancel_subscription id now s
