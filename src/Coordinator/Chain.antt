-- ===== src/Coordinator/Chain.antt =====
-- The hash chain of a workflow's segments (CMR.1) and the temporal envelope (CMR.2).
use oap_spec.Prelude.{
  ℕ, ◌+◌, String, true, Option, none, some, List, [], ◌∷◌, ◌++◌, map, ◌≡◌, refl, sym, ◌∙◌, arith,
  eq_refl, if◌then◌else◌, Option-cases, Bool-cases, inl, inr,
}
use oap_spec.Coordinator.{Evaluation, Segment, Receipt, Workflow, Host, is_terminal}
use oap_spec.Coordinator.Segments.{
  segment_hash, wire, effective_from, sooner, chain_breaks, verify_receipt, expired_at_observation,
  failed_constraints, same_expiry, same_link, earlier, date_of,
}
use oap_spec.Coordinator.Machine.{ok, audit, or_text}
use oap_spec.Coordinator.Ingest.{Submission, ingest_segment, make_segment, activate, last?}
use oap_spec.Coordinator.Issue.{build_receipt, make_receipt, signed, evaluate_all, context_of}

module _ {N : Type 0} (host : Host N) where
  -- Each segment carries the hash of the one before it, and the first carries `previous`.
  abbrev pub LinkedFrom : Option String → List (Segment N) → Type 0
  LinkedFrom previous [] = Unit
  LinkedFrom previous (s ∷ rest) =
      (s.prev_segment_hash ≡ previous) × LinkedFrom (some (segment_hash host s)) rest

  abbrev pub IsChained : Workflow N → Type 0
  IsChained w = LinkedFrom none w.segments

  abbrev link_after : Option String → List (Segment N) → Option String
  link_after previous segments = elim (last? segments) [
    | none ↦ previous
    | some s ↦ some (segment_hash host s)
  ]

  link_after-cons :
      (p q : Option String) (s : Segment N) (rest : List (Segment N))
      → link_after p (s ∷ rest) ≡ link_after (some (segment_hash host s)) rest
  link_after-cons p q s [] = refl
  link_after-cons p q s (t ∷ []) = refl
  link_after-cons p q s (t ∷ u ∷ rest) =
      link_after-cons p q t (u ∷ rest)
      ∙ sym (link_after-cons (some (segment_hash host s)) q t (u ∷ rest))

  LinkedFrom-concat :
      (p : Option String) (xs : List (Segment N)) (s : Segment N)
      → LinkedFrom p xs
      → s.prev_segment_hash ≡ link_after p xs
      → LinkedFrom p (xs ++ s ∷ [])
  LinkedFrom-concat p [] s l e = (e, tt)
  LinkedFrom-concat p (x ∷ xs) s l e =
      (l.0, LinkedFrom-concat (some (segment_hash host x)) xs s l.1 (e ∙ link_after-cons p p x xs))

  segments-activate : (n : ℕ) (w : Workflow N) → (activate host n w).segments ≡ w.segments
  unfolding activate audit
  segments-activate n w = ground arith

  pub submitted : Submission N → ℕ → Workflow N → Segment N
  submitted input n w = make_segment host input (or_text input.issued_at (host.now n)) w.segments

  -- A terminal workflow is left alone; otherwise the new segment comes last.
  pub segments-ingest_segment :
      (input : Submission N) (n : ℕ) (w : Workflow N)
      → (ingest_segment host input n w).workflow.segments
        ≡ (if is_terminal w.state then w.segments else w.segments ++ submitted input n w ∷ [])
  unfolding ingest_segment submitted
  segments-ingest_segment input n w = elim (Bool-cases (is_terminal w.state)) [
    | inl done ↦ rw (done, ingest_segment)
    | inr going ↦ rw (going, ingest_segment) (segments-activate _ _ ∙ (unfold audit in refl))
  ]

  -- Whatever a broker submits, the segments of the workflow stay chained: each carries the hash of
  -- the one before it, and the first carries none.
  pub ingest_segment-IsChained :
      (input : Submission N) (n : ℕ) (w : Workflow N)
      → IsChained w
      → IsChained (ingest_segment host input n w).workflow
  unfolding submitted make_segment
  ingest_segment-IsChained input n w h =
      rw (segments-ingest_segment input n w) (elim (Bool-cases (is_terminal w.state)) [
        | inl done ↦ rw done h
        | inr going ↦ rw going (LinkedFrom-concat none w.segments (submitted input n w) h refl)
      ])

  chain_breaks-wire :
      (i : ℕ) (p : Option String) (segments : List (Segment N))
      → LinkedFrom p segments
      → chain_breaks host i (map wire segments) ≡ []
  unfolding chain_breaks same_link segment_hash
  chain_breaks-wire i p [] l = refl
  chain_breaks-wire i p (s ∷ []) l = refl
  chain_breaks-wire i p (s ∷ t ∷ rest) l =
      rw (l.1.0, eq_refl) (chain_breaks-wire (i + 1) (some (segment_hash host s)) (t ∷ rest) l.1)

  effective_from-wire :
      (least : Option String) (segments : List (Segment N))
      → effective_from host least (map wire segments) ≡ effective_from host least segments
  unfolding effective_from sooner
  effective_from-wire least [] = refl
  effective_from-wire least (s ∷ rest) = effective_from-wire (sooner host least s) rest

  same_expiry_refl : (e : Option String) → same_expiry e e ≡ true
  same_expiry_refl none = refl
  same_expiry_refl (some s) = eq_refl s

  -- What a successful issue has returned.
  pub build_receipt-eq-ok :
      (n : ℕ) (w : Workflow N) (r : Receipt N)
      → (build_receipt host n w).result ≡ ok r
      → (evaluations : List Evaluation) × (evaluate_all host
            (context_of host w)
            w.manifest.consistency_constraints
          ≡ some evaluations)
        × (r ≡ signed host (make_receipt host w evaluations))
        × ((build_receipt host n w).workflow.last_receipt ≡ some r)
  unfolding build_receipt audit
  build_receipt-eq-ok n w r e =
      elim (Option-cases
        (evaluate_all host (context_of host w) w.manifest.consistency_constraints)) [
          | inl failed ↦ absurd (ground arith)
          | inr (evaluations, evaluated) ↦ (evaluations, evaluated, ground arith, ground arith)
        ]

  verify-signed :
      (w : Workflow N) (evaluations : List Evaluation) (now : String)
      → IsChained w
      → verify_receipt host (signed host (make_receipt host w evaluations)) now
        ≡ (if earlier (date_of host (effective_from host none w.segments)) (host.date now)
            then expired_at_observation ∷ []
            else [])
          ++ failed_constraints host evaluations
  unfolding verify_receipt signed make_receipt
  verify-signed w evaluations now h = rw (
    chain_breaks-wire 1 none w.segments h,
    effective_from-wire none w.segments,
    same_expiry_refl (effective_from host none w.segments),
  )

  -- A receipt that the coordinator issues for a chained workflow carries all its segments, and a
  -- verifier finds no broken link and no wrong expiry in it: at `now` it reports exactly that the
  -- effective expiry has passed, if it has, and the constraints that were evaluated to false.
  pub verify-build_receipt :
      (n : ℕ) (w : Workflow N) (r : Receipt N) (now : String)
      → IsChained w
      → (build_receipt host n w).result ≡ ok r
      → (r.segments ≡ map wire w.segments)
        × (verify_receipt host r now
            ≡ (if earlier (date_of host r.effective_expires_at) (host.date now)
                then expired_at_observation ∷ []
                else [])
              ++ failed_constraints host r.evaluations)
  unfolding signed make_receipt
  verify-build_receipt n w r now h e =
      let (evaluations, _, same, _) = build_receipt-eq-ok n w r e in
      rw same (refl, verify-signed w evaluations now h)
