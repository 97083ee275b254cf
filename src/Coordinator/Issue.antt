-- ===== src/Coordinator/Issue.antt =====
-- `buildCrossMatchReceipt` (reference/coordinator/coordinator.js).
use Prim.Native.String
use text.Mathlib.Text.{starts_with}
use oap_spec.Prelude.{
  store, ℕ, ◌+◌, String, Option, none, some, List, [], ◌∷◌, map, if◌then◌else◌, ltb, ◌+s◌, length,
}
use oap_spec.Json.{Json, str, obj, Fields, end, field, canonicalize}
use oap_spec.Predicate.{evaluate_predicate}
use oap_spec.Coordinator.{
  too_few_segments, crashed, Segment, Constraint, Evaluation, Receipt, receipt_issued, Workflow,
  Host,
}
use oap_spec.Coordinator.Segments.{wire, hashed_fields, str_or_null, effective_from, receipt_json}
use oap_spec.Coordinator.Machine.{ok, err, Out, audit}

infixl 5 ◌>>=◌
abbrev ◌>>=◌ {ℓ κ} : {A : Type ℓ} {B : Type κ} → Option A → (A → Option B) → Option B
none >>= f = none
some a >>= f = f a

abbrev optional : {N : Type 0} → String → Option (Json N) → Fields N → Fields N
optional k none rest = rest
optional k (some v) rest = field k v rest

abbrev fields_from : {N : Type 0} → List (String × Json N) → Fields N
fields_from [] = end
fields_from ((k, v) ∷ rest) = field k v (fields_from rest)

-- did.replace(/^did:web:/, '')
abbrev without_did_web : String → String
without_did_web did =
    if starts_with did "did:web:" then String.slice did 8 (String.len did) else did

module _ {N : Type 0} (host : Host N) where
  -- `Object.keys`-style build of `segMap`: a role's later segment takes the place of its earlier one.
  unfoldable pub segment_value : Segment N → Json N
  segment_value s = obj (
      hashed_fields s (
        field "prev_segment_hash" (str_or_null s.prev_segment_hash)
          (optional "payload" s.payload (optional "attestations" s.attestations end))))

  unfoldable pub segment_map : List (Segment N) → List (String × Json N) → List (String × Json N)
  segment_map [] found = found
  segment_map (s ∷ rest) found = segment_map rest (store s.role_id (segment_value s) found)

  unfoldable pub context_of : Workflow N → Json N
  context_of w = obj (
      field "segments" (obj (fields_from (segment_map w.segments [])))
        (field "workflow" (obj (field "initiator_did" (str w.initiator_did) end)) end))

  unfoldable pub evaluate_all : Json N → List Constraint → Option (List Evaluation)
  evaluate_all context [] = some []
  evaluate_all context (k ∷ ks) = do
    holds ← evaluate_predicate host.runtime k.predicate context
    rest ← evaluate_all context ks
    some (record { constraint_id = k.constraint_id; result = holds; evidence = k.predicate } ∷ rest)

  unfoldable pub make_receipt : Workflow N → List Evaluation → Receipt N
  make_receipt w evaluations = record {
    workflow_id = w.workflow_id;
    workflow_manifest_id = w.manifest.workflow_manifest_id;
    workflow_manifest_hash = w.manifest_hash;
    initiator_did = w.initiator_did;
    coordinator_did = host.coordinator_did;
    failover_did = host.failover_did;
    opened_at = w.opened_at;
    expires_at = w.manifest.expires_at;
    segments = map wire w.segments;
    evaluations = evaluations;
    effective_expires_at = effective_from host none w.segments;
    heartbeat_anchor =
        "https://" +s without_did_web host.coordinator_did +s "/heartbeat/" +s w.workflow_id;
    signatures = [];
  }

  -- The signature is taken over the receipt with no signatures.
  unfoldable pub signed : Receipt N → Receipt N
  signed r = record r {
    signatures =
        (host.coordinator_did, host.sign (canonicalize host.stringify (receipt_json host r))) ∷ [];
  }

  unfoldable pub build_receipt : ℕ → Workflow N → Out N (Receipt N)
  build_receipt n w =
      if ltb (length w.segments) 2
      then record { result = err too_few_segments; workflow = w; readings = n }
      else elim (evaluate_all (context_of w) w.manifest.consistency_constraints) [
        | none ↦ record { result = err crashed; workflow = w; readings = n }
        | some evaluations ↦
            let r = signed (make_receipt w evaluations) in
            record {
              result = ok r;
              workflow = audit host n receipt_issued (record w { last_receipt = some r });
              readings = n + 1;
            }
      ]
