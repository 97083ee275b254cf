-- ===== src/Agent.antt =====
-- The agent of reference/agent/agent.js: its policy layers, `invoke` around the call of the tool, the
-- kill switch, and the chain of local receipts. The request that is sent, the texts of explanations
-- and the other calls of a tool are left out.
pub mod Receipts
pub mod Policy
use oap_spec.Prelude.{
  ℕ, suc, ◌+◌, String, Bool, true, false, not, ◌&&◌, Option, none, some, List, [], ◌∷◌, ◌++◌, ◌=s=◌,
  ◌+s◌, if◌then◌else◌, any, length,
}
use oap_spec.Json.{Json, undefined, null, bool, str, arr, obj, Items, nil, cons, Fields, end, field}

-- What the runtime gives: `JSON.stringify`, SHA-256, numbers, and whether a value is falsy.
pub record Host (N : Type 0) : Type 0 where
  pub stringify : Json N → String
  pub sha256_hex : String → String
  pub parse_float : String → N
  pub num_lt : N → N → Bool
  pub is_falsy : Json N → Bool
  pub is_falsy_num : N → Bool

pub data Verdict : Type 0 where
  allow require_consent block : Verdict

pub record Decision : Type 0 where
  pub decision_id : String
  pub outcome : Verdict
  pub applied_rules : List String

pub record Action : Type 0 where
  pub id : String
  pub cost : Option String  -- `cost.amount`, "" if absent

pub record Manifest : Type 0 where
  pub tool_did : String
  pub jurisdictions : List String
  pub actions : List Action
  pub subscribe_endpoint : Bool

pub record Receipt (N : Type 0) : Type 0 where
  pub receipt_id : String
  pub type' : String
  pub timestamp : String
  pub principal_did : String
  pub agent_did : String
  pub tool_did : String
  pub action_id : Json N
  pub input_hash : String
  pub output_hash : String
  pub policy_decision : Option Decision
  pub previous_receipt_hash : String

pub record Agent (N : Type 0) : Type 0 where
  pub principal_did : String
  pub agent_did : String
  pub scope_id : String
  pub embargo_list : List String
  pub chinese_walls : List (List String)  -- the `between` of each
  pub max_cost_per_call_eur : Option N
  pub subscriptions : List (String × String)
  pub receipts : List (Receipt N)
  pub previous_receipt_hash : String

-- What a call draws: an id for the decision, an id for the receipt, and the time.
pub record Draw : Type 0 where
  pub decision_id : String
  pub receipt_id : String
  pub now : String

pub data Failure : Type 0 where
  action_not_found policy_blocked : Failure

pub data Result {ℓ} (A : Type ℓ) : Type ℓ where
  ok : A → Result A
  err : Failure → Result A

abbrev verdict_text : Verdict → String
verdict_text allow = "allow"
verdict_text require_consent = "require_consent"
verdict_text block = "block"

abbrev texts : {N : Type 0} → List String → Items N
texts [] = nil
texts (s ∷ rest) = cons (str s) (texts rest)

abbrev decisions_json : {N : Type 0} → Option Decision → Items N
decisions_json none = nil
decisions_json (some d) =
    cons
      (obj (
        field "id" (str d.decision_id) (
          field "outcome" (str (verdict_text d.outcome))
            (field "rules" (arr (texts d.applied_rules)) end))))
      nil

unfoldable pub receipt_json : {N : Type 0} → Receipt N → Json N
receipt_json r = obj (
    field "receipt_id" (str r.receipt_id) (
      field "type" (str r.type') (
        field "timestamp" (str r.timestamp) (
          field "principal_did" (str r.principal_did) (
            field "agent_did" (str r.agent_did) (
              field "tool_did" (str r.tool_did) (
                field "action_id" r.action_id (
                  field "input_hash" (str r.input_hash) (
                    field "output_hash" (str r.output_hash) (
                      field "policy_decisions" (arr (decisions_json r.policy_decision)) (
                        field "previous_receipt_hash" (str r.previous_receipt_hash) (
                          field "signatures"
                            (arr (
                              cons
                                (obj (
                                  field "by" (str r.agent_did) (
                                    field "alg" (str "EdDSA")
                                      (field "value" (str "reference-unsigned") end))))
                                nil))
                            end))))))))))))

abbrev pub one_of : String → List String → Bool
one_of s list = any (λ t. t =s= s) list

-- The rules that active Chinese walls add.
unfoldable pub wall_rules : String → List (List String) → List String
wall_rules scope [] = []
wall_rules scope (between ∷ walls) =
    let rest = wall_rules scope walls in
    if one_of scope between then "l3.ccc.chinese_wall.active" ∷ rest else rest

unfoldable pub find_action : String → List Action → Option Action
find_action id [] = none
find_action id (a ∷ rest) = let later = find_action id rest in if a.id =s= id then some a else later

abbrev pub is_block : Verdict → Bool
is_block block = true
is_block _ = false

pub data Check : Type 0 where
  valid : ℕ → Check
  broken_at : String → Check

module _ {N : Type 0} (host : Host N) where
  unfoldable pub hash_json : Json N → String
  hash_json v =
      "sha256:" +s host.sha256_hex (host.stringify (if host.is_falsy v then obj end else v))

  -- Whether the spending cap is exceeded; a cap of 0 is falsy.
  unfoldable pub over_cap : Option N → Option String → Bool
  over_cap none cost = false
  over_cap (some cap) none = false
  over_cap (some cap) (some amount) =
      not (host.is_falsy_num cap)
      && host.num_lt cap (host.parse_float (if amount =s= "" then "0" else amount))

  unfoldable pub evaluate_policy : Agent N → Manifest → Action → String → Decision
  evaluate_policy agent manifest action id =
      let l1 = "l1.universal.pass" ∷ [] in
      if not (one_of "DE" manifest.jurisdictions)
      then record {
        decision_id = id;
        outcome = block;
        applied_rules = l1 ++ "l2.jurisdiction.mismatch" ∷ [];
      }
      else let l2 = l1 ++ "l2.jurisdiction.ok" ∷ [] in
        if one_of manifest.tool_did agent.embargo_list
        then record {
          decision_id = id;
          outcome = block;
          applied_rules = l2 ++ "l3.ccc.embargo" ∷ [];
        }
        else let l3 =
            (l2 ++ "l3.ccc.embargo.clear" ∷ []) ++ wall_rules agent.scope_id agent.chinese_walls in
          if over_cap agent.max_cost_per_call_eur action.cost
          then record {
            decision_id = id;
            outcome = require_consent;
            applied_rules = l3 ++ "l4.spending_cap.exceeded" ∷ [];
          }
          else record {
            decision_id = id;
            outcome = allow;
            applied_rules = l3 ++ "l4.personal.pass" ∷ [];
          }

  unfoldable pub create_local_receipt :
      Draw
      → (type tool_did : String) → (action_id input output : Json N) → Option Decision
      → Agent N
      → Agent N
  create_local_receipt draw type tool_did action_id input output decision agent =
      let receipt : Receipt N = record {
        receipt_id = "urn:oap:receipt:" +s draw.receipt_id;
        type' = type;
        timestamp = draw.now;
        principal_did = agent.principal_did;
        agent_did = agent.agent_did;
        tool_did = tool_did;
        action_id = action_id;
        input_hash = hash_json input;
        output_hash = hash_json output;
        policy_decision = decision;
        previous_receipt_hash = agent.previous_receipt_hash;
      } in
      record agent {
        receipts = agent.receipts ++ receipt ∷ [];
        previous_receipt_hash = hash_json (receipt_json receipt);
      }

  -- `invoke`; `output` is the `output` of what the tool answers. None of the layers reads the input.
  unfoldable pub invoke :
      Draw → Manifest → String → (input output : Json N) → Agent N → Result (Unit {0}) × Agent N
  invoke draw manifest action_id input output agent =
      elim (find_action action_id manifest.actions) [
        | none ↦ (err action_not_found, agent)
        | some action ↦
            let decision = evaluate_policy agent manifest action draw.decision_id in
            if is_block decision.outcome then (err policy_blocked, agent) else (
              ok tt,
              create_local_receipt draw "invocation" manifest.tool_did (str action_id) input output
                  (some decision) agent,
            )
      ]

  -- `subscriptions.clear()` and the receipt; the calls of the tools are best effort.
  unfoldable pub kill_switch : Draw → Agent N → Agent N
  kill_switch draw agent =
      create_local_receipt draw "kill_switch" "self" null (obj end)
        (obj (field "killed" (bool true) end)) none (record agent { subscriptions = [] })

  unfoldable pub check_from : String → List (Receipt N) → Option String
  check_from prev [] = none
  check_from prev (r ∷ rest) =
      let later = check_from (hash_json (receipt_json r)) rest in
      if r.previous_receipt_hash =s= prev then later else some r.receipt_id

  unfoldable pub verify_receipt_chain : Agent N → Check
  verify_receipt_chain agent = elim (check_from "genesis" agent.receipts) [
    | none ↦ valid (length agent.receipts)
    | some id ↦ broken_at id
  ]
