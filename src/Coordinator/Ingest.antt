-- ===== src/Coordinator/Ingest.antt =====
-- `ingestSegment` (reference/coordinator/coordinator.js).
use oap_spec.Prelude.{
  ℕ, ◌+◌, String, Bool, not, ◌&&◌, ◌||◌, Option, none, some, List, [], ◌∷◌, ◌++◌, ◌=s=◌,
  if◌then◌else◌, all, any,
}
use oap_spec.Json.{Json}
use oap_spec.Predicate.{truthy}
use oap_spec.Coordinator.{
  active, is_terminal, is_opening, terminal, Segment, segment_ingested, transition, Workflow, Host,
}
use oap_spec.Coordinator.Segments.{segment_hash, is_blank}
use oap_spec.Coordinator.Machine.{ok, err, Out, or_text, audit}

-- What a broker submits; `issued_at` may be missing.
pub record Submission (N : Type 0) : Type 0 where
  pub role_id : String
  pub broker_did : String
  pub match_receipt_hash : Json N
  pub broker_tree_head : Json N
  pub inclusion_proof : Json N
  pub segment_signature : Json N
  pub issued_at : Option String
  pub expires_at : Option String
  pub payload : Option (Json N)
  pub attestations : Option (Json N)

abbrev pub last? {ℓ} : {A : Type ℓ} → List A → Option A
last? [] = none
last? (x ∷ []) = some x
last? (_ ∷ y ∷ rest) = last? (y ∷ rest)

module _ {N : Type 0} (host : Host N) where
  abbrev kept : Option (Json N) → Option (Json N)
  kept none = none
  kept (some v) = if truthy host.runtime v then some v else none

  abbrev pub previous_hash : List (Segment N) → Option String
  previous_hash segments = elim (last? segments) [
    | none ↦ none
    | some s ↦ some (segment_hash host s)
  ]

  unfoldable pub make_segment : Submission N → (issued_at : String) → List (Segment N) → Segment N
  make_segment input issued_at segments = record {
    role_id = input.role_id;
    broker_did = input.broker_did;
    match_receipt_hash = input.match_receipt_hash;
    broker_tree_head = input.broker_tree_head;
    inclusion_proof = input.inclusion_proof;
    segment_signature = input.segment_signature;
    issued_at = issued_at;
    expires_at = input.expires_at;
    prev_segment_hash = previous_hash segments;
    payload = kept input.payload;
    attestations = kept input.attestations;
  }

  abbrev pub present : List (Segment N) → String → Bool
  present segments role = any (λ s. s.role_id =s= role) segments

  -- `requiredRoles.every(r => presentRoles.has(r))`
  abbrev pub staffed : Workflow N → Bool
  staffed w = all (λ r. not r.required || present w.segments r.role_id) w.manifest.roles

  unfoldable pub activate : ℕ → Workflow N → Workflow N
  activate n w =
      if staffed w && is_opening w.state
      then audit host n (transition active) (record w { state = active })
      else w

  unfoldable pub ingest_segment : Submission N → ℕ → Workflow N → Out N (Segment N)
  ingest_segment input n w =
      if is_terminal w.state
      then record { result = err terminal; workflow = w; readings = n }
      else let m = if is_blank input.issued_at then n + 1 else n in
        let s = make_segment input (or_text input.issued_at (host.now n)) w.segments in
        let grown = audit host m segment_ingested (record w { segments = w.segments ++ s ∷ [] }) in
        record {
          result = ok s;
          workflow = activate (m + 1) grown;
          readings = if staffed grown && is_opening grown.state then m + 2 else m + 1;
        }
