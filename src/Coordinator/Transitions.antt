-- ===== src/Coordinator/Transitions.antt =====
-- The state machine of a workflow: the methods of reference/coordinator/coordinator.js as steps, with
-- `closeWorkflow` in two, and the edges that they take.
use mathlib.Core.Path.{subst}
use oap_spec.Prelude.{
  ℕ, String, Bool, ◌||◌, true, false, ◌≡◌, refl, ◌≢◌, sym, ◌∙◌, ◌⊎◌, inl, inr, arith, Option-cases,
}
use oap_spec.Coordinator.{
  State, opening, active, closing, closed, expiring, invalidated, expired, is_terminal, Workflow,
  Host,
}
use oap_spec.Coordinator.Machine.{ok, err, audit}
use oap_spec.Coordinator.Ingest.{Submission, ingest_segment, activate}
use oap_spec.Coordinator.Issue.{build_receipt, evaluate_all, context_of}
use oap_spec.Coordinator.Closing.{Revocation, handle_revocation, close_begin, close_finish, expire}

-- The edges between states that a method takes, beside staying where it is.
pub data Edge : State → State → Type 0 where
  staffing : Edge opening active
  revoking : {s : State} → is_terminal s ≡ false → Edge s invalidated
  expiry : {s : State} → is_terminal s ≡ false → Edge s expired
  begin_closing : Edge active closing

staffing_of : {s t : State} → s ≡ opening → t ≡ active → Edge s t
staffing_of from to = rw (from, to) staffing

closing_of : {s t : State} → s ≡ active → t ≡ closing → Edge s t
closing_of from to = rw (from, to) begin_closing

revoking_of : {s t : State} → is_terminal s ≡ false → t ≡ invalidated → Edge s t
revoking_of going to = rw to (revoking going)

expiry_of : {s t : State} → is_terminal s ≡ false → t ≡ expired → Edge s t
expiry_of going to = rw to (expiry going)

-- Closing, or a terminal state that is not Closed.
abbrev pub IsLeft : State → Type 0
IsLeft s = (s ≡ closing) ⊎ ((s ≡ invalidated) ⊎ (s ≡ expired))

Edge-IsLeft : {s t : State} → Edge s t → IsLeft s → IsLeft t
Edge-IsLeft staffing h = ground (arith, h)
Edge-IsLeft (revoking going) h = inr (inl refl)
Edge-IsLeft (expiry going) h = inr (inr refl)
Edge-IsLeft begin_closing h = inl refl

Edge-ne-expiring : {s t : State} → Edge s t → t ≡ expiring → ⊥
Edge-ne-expiring staffing e = cc
Edge-ne-expiring (revoking h) e = cc
Edge-ne-expiring (expiry h) e = cc
Edge-ne-expiring begin_closing e = cc

module _ {N : Type 0} (host : Host N) where
  -- A call of a method that waits for nothing, on a workflow.
  pub data Move : Workflow N → Workflow N → Type 0 where
    ingest :
        (input : Submission N) (n : ℕ) (w : Workflow N)
        → Move w (ingest_segment host input n w).workflow
    issue : (n : ℕ) (w : Workflow N) → Move w (build_receipt host n w).workflow
    revoke :
        (event : Revocation) (n : ℕ) (w : Workflow N)
        → Move w (handle_revocation host event n w).workflow
    tick : (now : String) (n : ℕ) (w : Workflow N) → Move w (expire host now n w).workflow

  -- Whether `closeWorkflow` goes to the registry.
  abbrev pub goes_out : ℕ → Workflow N → Bool
  goes_out n w = elim (close_begin host n w).result [ ok _ ↦ true | err _ ↦ false ]

  -- A part of a call that runs at once, and whether a `closeWorkflow` waits for the registry before it
  -- and after it.
  pub data Step : Bool → Workflow N → Bool → Workflow N → Type 0 where
    method : {b : Bool} {w v : Workflow N} → Move w v → Step b w b v
    close :
        {b c : Bool} (n : ℕ) (w : Workflow N)
        → c ≡ (b || goes_out n w)
        → Step b w c (close_begin host n w).workflow
    finish : (n : ℕ) (w : Workflow N) → Step true w false (close_finish host n w).workflow

  -- A workflow since it was opened, whatever methods are called and however their parts alternate.
  pub data Reach : Bool → Workflow N → Type 0 where
    opened : (w : Workflow N) → w.state ≡ opening → Reach false w
    later : {b c : Bool} {w v : Workflow N} → Reach b w → Step b w c v → Reach c v

  Move-Edge-ingest :
      (input : Submission N) (n : ℕ) (w : Workflow N)
      → ((ingest_segment host input n w).workflow.state ≡ w.state)
        ⊎ ((w.state ≡ opening) × ((ingest_segment host input n w).workflow.state ≡ active))
  unfolding ingest_segment activate audit
  Move-Edge-ingest input n w = ground arith

  goes_out-cases :
      (n : ℕ) (w : Workflow N)
      → ((goes_out n w ≡ false) × ((close_begin host n w).workflow.state ≡ w.state))
        ⊎ ((w.state ≡ active) × ((close_begin host n w).workflow.state ≡ closing))
  unfolding close_begin audit
  goes_out-cases n w = ground arith

  state-close_finish : (n : ℕ) (w : Workflow N) → (close_finish host n w).workflow.state ≡ closed
  unfolding close_finish audit
  state-close_finish n w = refl

  state-build_receipt : (n : ℕ) (w : Workflow N) → (build_receipt host n w).workflow.state ≡ w.state
  unfolding build_receipt audit
  state-build_receipt n w =
      elim (Option-cases
        (evaluate_all host (context_of host w) w.manifest.consistency_constraints)) [
          | inl failed ↦ ground arith
          | inr found ↦ ground arith
        ]

  Move-Edge-revoke :
      (event : Revocation) (n : ℕ) (w : Workflow N)
      → ((handle_revocation host event n w).workflow.state ≡ w.state)
        ⊎ ((is_terminal w.state ≡ false)
            × ((handle_revocation host event n w).workflow.state ≡ invalidated))
  unfolding handle_revocation audit
  Move-Edge-revoke event n w = ground arith

  Move-Edge-tick :
      (now : String) (n : ℕ) (w : Workflow N)
      → ((expire host now n w).workflow.state ≡ w.state)
        ⊎ ((is_terminal w.state ≡ false) × ((expire host now n w).workflow.state ≡ expired))
  unfolding expire audit
  Move-Edge-tick now n w = ground arith

  Move-Edge : {w v : Workflow N} → Move w v → (v.state ≡ w.state) ⊎ Edge w.state v.state
  Move-Edge (ingest input n w) = elim (Move-Edge-ingest input n w) [
    | inl same ↦ inl same
    | inr (from, to) ↦ inr (staffing_of from to)
  ]
  Move-Edge (issue n w) = inl (state-build_receipt n w)
  Move-Edge (revoke event n w) = elim (Move-Edge-revoke event n w) [
    | inl same ↦ inl same
    | inr (going, to) ↦ inr (revoking_of going to)
  ]
  Move-Edge (tick now n w) = elim (Move-Edge-tick now n w) [
    | inl same ↦ inl same
    | inr (going, to) ↦ inr (expiry_of going to)
  ]

  -- While a `closeWorkflow` waits, the workflow is Closing, or was meanwhile invalidated or expired.
  Reach-IsLeft : {b : Bool} {w : Workflow N} → Reach b w → b ≡ true → IsLeft w.state
  Reach-IsLeft (opened w e) h = cc h
  Reach-IsLeft (later r (method m)) h = elim (Move-Edge m) [
    | inl same ↦ subst IsLeft (sym same) (Reach-IsLeft r h)
    | inr edge ↦ Edge-IsLeft edge (Reach-IsLeft r h)
  ]
  Reach-IsLeft (later r (close n w waits)) h = elim (goes_out-cases n w) [
    | inl (stays, same) ↦ subst IsLeft (sym same) (Reach-IsLeft r (ground (arith, waits, stays, h)))
    | inr (from, to) ↦ inl to
  ]
  Reach-IsLeft (later r (finish n w)) h = cc h

  pub Step-Edge :
      {b c : Bool} {w v : Workflow N}
      → Reach b w
      → Step b w c v
      → (v.state ≡ w.state) ⊎ (Edge w.state v.state ⊎ (IsLeft w.state × (v.state ≡ closed)))
  Step-Edge r (method m) = elim (Move-Edge m) [ inl same ↦ inl same | inr edge ↦ inr (inl edge) ]
  Step-Edge r (close n w waits) = elim (goes_out-cases n w) [
    | inl (stays, same) ↦ inl same
    | inr (from, to) ↦ inr (inl (closing_of from to))
  ]
  Step-Edge r (finish n w) = inr (inr (Reach-IsLeft r refl, state-close_finish n w))

  -- The code declares a state Expiring, which no workflow enters.
  pub Reach-ne-expiring : {b : Bool} {w : Workflow N} → Reach b w → w.state ≢ expiring
  Reach-ne-expiring (opened w e) = λ h. cc (e, h)
  Reach-ne-expiring (later r m) = elim (Step-Edge r m) [
    | inl same ↦ λ e. Reach-ne-expiring r (sym same ∙ e)
    | inr (inl edge) ↦ λ e. Edge-ne-expiring edge e
    | inr (inr (from, to)) ↦ λ e. cc (to, e)
  ]
