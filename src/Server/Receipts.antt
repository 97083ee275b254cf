-- ===== src/Server/Receipts.antt =====
-- `persistReceipt` and POST /oap/receipt-verify (reference/server/server.js).
use oap_spec.Prelude.{
  ℕ, String, Bool, false, Option, none, some, [], ◌∷◌, ◌++◌, ◌+s◌, ◌=s=◌, if◌then◌else◌, lookup,
}
use oap_spec.Json.{
  Json, null, num, str, arr, obj, nil, cons, Fields, end, field, canonicalize, without, entries,
}
use oap_spec.Server.{Receipt, Tables, Host, Draw}

abbrev pub or_null : {N : Type 0} → Option String → Json N
or_null none = null
or_null (some s) = str s

-- A call of `persistReceipt`, but for what it draws. A `decision` is given as its JSON.
pub record Report (N : Type 0) : Type 0 where
  pub type' : String
  pub principal_did : String
  pub agent_did : Option String
  pub action_id : Option String
  pub input : Json N
  pub output : Json N
  pub decision : Option (Json N)

-- `r.signatures[0].value`; none if `signatures` is no list or the value no text, which has no `replace`.
abbrev value_in : {N : Type 0} → Option (Json N) → Option String
value_in (some (str s)) = some s
value_in _ = none

abbrev signature_in : {N : Type 0} → Option (Json N) → Option String
signature_in (some (arr (cons (obj fs) vs))) = value_in (lookup "value" (entries fs))
signature_in _ = none

unfoldable pub first_value : {N : Type 0} → Fields N → Option String
first_value r = signature_in (lookup "signatures" (entries r))

module _ {N : Type 0} (host : Host N) where
  -- `'sha256:' + sha256Hex(canonicalize(v))`
  unfoldable pub hash_of : Json N → String
  hash_of v = "sha256:" +s host.sha256_hex (canonicalize host.stringify v)

  abbrev pub or_empty : Json N → Json N
  or_empty v = if host.is_falsy v then obj end else v

  abbrev proof_json : String → String → ℕ → Json N
  proof_json operator region index = obj (
      field "log_operator" (str operator) (
        field "region" (str region) (
          field "leaf_index" (num (host.of_nat index))
            (field "inclusion_proof" (str "reference-stub") end))))

  abbrev pub decision_json : Draw → Option (Json N) → Json N
  decision_json draw (some d) = d
  decision_json draw none = obj (
      field "id" (str ("pol_" +s draw.policy_ulid)) (
        field "outcome" (str "allow")
          (field "rules" (arr (cons (str "l1.universal.pass") nil)) end)))

  -- The fields of `core`, and then others.
  unfoldable pub core_fields : Draw → Report N → (previous : String) → Fields N → Fields N
  core_fields draw report previous rest =
      field "receipt_id" (str ("urn:oap:receipt:" +s draw.ulid)) (
        field "type" (str report.type') (
          field "timestamp" (str draw.now) (
            field "principal_did" (str report.principal_did) (
              field "agent_did" (or_null report.agent_did) (
                field "tool_did" (str host.tool_did) (
                  field "action_id" (or_null report.action_id) (
                    field "input_hash" (str (hash_of (or_empty report.input))) (
                      field "output_hash" (str (hash_of (or_empty report.output))) (
                        field "cost"
                          (obj (field "amount" (str "0") (field "currency" (str "EUR") end)))
                          (field "policy_decisions"
                            (arr (cons (decision_json draw report.decision) nil))
                            (field "previous_receipt_hash" (str previous) (
                              field "transparency_log_proofs"
                                (arr (
                                  cons
                                    (proof_json "log-eu.openagentprotocol.example" "EU"
                                      draw.first_ms)
                                    (cons
                                      (proof_json "log-us.openagentprotocol.example" "US"
                                        draw.second_ms)
                                      nil)))
                                rest))))))))))))

  abbrev pub signatures_json : String → Json N
  signatures_json value = arr (
      cons
        (obj (
          field "by" (str (host.tool_did +s "#oap-signing"))
            (field "alg" (str "EdDSA") (field "value" (str value) end))))
        nil)

  unfoldable pub make_receipt : Draw → Report N → (previous : String) → Receipt N
  make_receipt draw report previous =
      let value =
        host.sign (canonicalize host.stringify (obj (core_fields draw report previous end))) in
      let body =
        obj (core_fields draw report previous (field "signatures" (signatures_json value) end)) in
      record {
        receipt_id = "urn:oap:receipt:" +s draw.ulid;
        type' = report.type';
        timestamp = draw.now;
        principal_did = report.principal_did;
        agent_did = report.agent_did;
        action_id = report.action_id;
        body = body;
        self_hash = hash_of body;
      }

  unfoldable pub persist_receipt : Draw → Report N → Tables N → Receipt N × Tables N
  persist_receipt draw report t =
      let receipt = make_receipt draw report t.chain_tip in
      (receipt, record t { receipts = t.receipts ++ receipt ∷ []; chain_tip = receipt.self_hash })

  -- POST /oap/receipt-verify, whether the answer is that the receipt is valid; `check` is
  -- `crypto.verify` with the server's public key, none if it throws.
  unfoldable pub receipt_verify : (check : String → String → Option Bool) → Fields N → Bool
  receipt_verify check r = elim (first_value r) [
    | none ↦ false
    | some value ↦
        if value =s= ""
        then false
        else elim (check (canonicalize host.stringify (obj (without "signatures" r))) value) [
          | none ↦ false
          | some b ↦ b
        ]
  ]
