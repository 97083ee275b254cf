-- ===== src/Coordinator/Segments.antt =====
-- `segmentHash`, the effective expiry, `verifyCrossMatchReceipt` and the JSON forms that are hashed
-- and signed (reference/coordinator/coordinator.js).
use oap_spec.Prelude.{
  ℕ, ◌+◌, String, Bool, true, false, ◌||◌, Option, none, some, List, [], ◌∷◌, ◌++◌, ◌=s=◌,
  if◌then◌else◌, ltb, ◌+s◌,
}
use oap_spec.Json.{
  Json, undefined, null, bool, num, str, arr, obj, Items, nil, cons, Fields, end, field,
  canonicalize,
}
use oap_spec.Coordinator.{Segment, Receipt, Evaluation, Heartbeat, Host}

abbrev pub str_or_undefined : {N : Type 0} → Option String → Json N
str_or_undefined none = undefined
str_or_undefined (some s) = str s

abbrev pub str_or_null : {N : Type 0} → Option String → Json N
str_or_null none = null
str_or_null (some s) = str s

abbrev pub items_of {ℓ} : {A : Type ℓ} {N : Type 0} → (A → Json N) → List A → Items N
items_of f [] = nil
items_of f (x ∷ xs) = cons (f x) (items_of f xs)

-- The fields of `wire` in `segmentHash`: no link, payload or attestations.
abbrev pub hashed_fields : {N : Type 0} → Segment N → Fields N → Fields N
hashed_fields s rest = field "role_id" (str s.role_id) (
    field "broker_did" (str s.broker_did) (
      field "match_receipt_hash" s.match_receipt_hash (
        field "broker_tree_head" s.broker_tree_head (
          field "inclusion_proof" s.inclusion_proof (
            field "segment_signature" s.segment_signature (
              field "issued_at" (str s.issued_at)
                (field "expires_at" (str_or_undefined s.expires_at) rest)))))))

-- The segment as a receipt carries it.
abbrev pub wire : {N : Type 0} → Segment N → Segment N
wire s = record s { payload = none; attestations = none }

abbrev pub wire_json : {N : Type 0} → Segment N → Json N
wire_json s =
    obj (hashed_fields s (field "prev_segment_hash" (str_or_null s.prev_segment_hash) end))

-- `!text`
abbrev pub is_blank : Option String → Bool
is_blank none = true
is_blank (some s) = s =s= ""

-- `a < b` on dates and levels, of which none is NaN
abbrev pub earlier : Option ℕ → Option ℕ → Bool
earlier (some a) (some b) = ltb a b
earlier _ _ = false

-- `effective !== receipt.effective_expires_at`, negated
abbrev pub same_expiry : Option String → Option String → Bool
same_expiry none none = true
same_expiry (some a) (some b) = a =s= b
same_expiry _ _ = false

-- The texts that `verifyCrossMatchReceipt` collects.
pub data Problem : Type 0 where
  broken_link : ℕ → Problem
  effective_mismatch expired_at_observation : Problem
  constraint_false : String → Problem

module _ {N : Type 0} (host : Host N) where
  unfoldable pub segment_hash : Segment N → String
  segment_hash s =
      "sha256:" +s host.sha256_hex (canonicalize host.stringify (obj (hashed_fields s end)))

  abbrev pub date_of : Option String → Option ℕ
  date_of none = none
  date_of (some s) = host.date s

  -- One round of the `reduce`, and the whole of it.
  unfoldable pub sooner : Option String → Segment N → Option String
  sooner least s =
      if is_blank least || earlier (date_of s.expires_at) (date_of least)
      then s.expires_at
      else least

  unfoldable pub effective_from : Option String → List (Segment N) → Option String
  effective_from least [] = least
  effective_from least (s ∷ rest) = effective_from (sooner least s) rest

  abbrev evaluation_json : Evaluation → Json N
  evaluation_json e = obj (
      field "constraint_id" (str e.constraint_id)
        (field "result" (bool e.result) (field "evidence" (str e.evidence) end)))

  abbrev signature_json : String × String → Json N
  signature_json (signer, sig) = obj (field "signer" (str signer) (field "sig" (str sig) end))

  -- The failover's DID is there only if it is not falsy.
  abbrev failover_fields : Option String → Fields N → Fields N
  failover_fields none rest = rest
  failover_fields (some did) rest =
      if did =s= "" then rest else field "failover_coordinator_did" (str did) rest

  unfoldable pub receipt_json : Receipt N → Json N
  receipt_json r = obj (
      field "version" (str "1.0") (
        field "workflow_id" (str r.workflow_id) (
          field "workflow_manifest_id" (str r.workflow_manifest_id) (
            field "workflow_manifest_hash" (str r.workflow_manifest_hash) (
              field "initiator_did" (str r.initiator_did) (
                field "coordinator_did" (str r.coordinator_did) (
                  failover_fields r.failover_did (
                    field "opened_at" (str r.opened_at) (
                      field "expires_at" (str r.expires_at) (
                        field "segments" (arr (items_of wire_json r.segments)) (
                          field "consistency_evaluations"
                            (arr (items_of evaluation_json r.evaluations))
                            (field "effective_expires_at" (str_or_undefined r.effective_expires_at)
                              (field "coordinator_heartbeat_anchor" (str r.heartbeat_anchor) (
                                field "signatures" (arr (items_of signature_json r.signatures))
                                  end))))))))))))))

  -- What a heartbeat's signature is taken over.
  unfoldable pub heartbeat_json : Heartbeat → Json N
  heartbeat_json h = obj (
      field "coordinator_did" (str h.coordinator_did) (
        field "workflow_id" (str h.workflow_id) (
          field "counter" (num (host.of_nat h.counter)) (
            field "latest_receipt_hash" (str_or_null h.latest_receipt_hash)
              (field "issued_at" (str h.issued_at) end)))))

  -- The errors that `verifyCrossMatchReceipt` lists. An effective expiry that is null counts as one that
  -- is missing: only a receipt with no segment has it.
  unfoldable pub same_link : Option String → String → Bool
  same_link none h = false
  same_link (some l) h = l =s= h

  unfoldable pub chain_breaks : ℕ → List (Segment N) → List Problem
  chain_breaks i [] = []
  chain_breaks i (s ∷ []) = []
  chain_breaks i (s ∷ t ∷ rest) =
      let later = chain_breaks (i + 1) (t ∷ rest) in
      if same_link t.prev_segment_hash (segment_hash s) then later else broken_link i ∷ later

  unfoldable pub failed_constraints : List Evaluation → List Problem
  failed_constraints [] = []
  failed_constraints (e ∷ rest) =
      let later = failed_constraints rest in
      if e.result then later else constraint_false e.constraint_id ∷ later

  unfoldable pub verify_receipt : Receipt N → String → List Problem
  verify_receipt r now =
      chain_breaks 1 r.segments
      ++ (if same_expiry (effective_from none r.segments) r.effective_expires_at
          then []
          else effective_mismatch ∷ [])
      ++ (if earlier (date_of r.effective_expires_at) (host.date now)
          then expired_at_observation ∷ []
          else [])
      ++ failed_constraints r.evaluations
