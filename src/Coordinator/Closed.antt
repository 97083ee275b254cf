-- ===== src/Coordinator/Closed.antt =====
-- What `closeWorkflow` guarantees, and what can happen while it waits for the registry.
use oap_spec.Prelude.{
  ℕ, true, some, [], ◌∷◌, ◌++◌, ◌≡◌, ◌↔◌, arith, ◌=s=◌, Option-cases, inl, inr, all,
}
use oap_spec.Coordinator.{active, closed, invalidated, Receipt, Workflow, Host}
use oap_spec.Coordinator.Machine.{ok, audit}
use oap_spec.Coordinator.Ingest.{Submission, ingest_segment, activate}
use oap_spec.Coordinator.Closing.{
  Revocation, handle_revocation, close_begin, close_finish, all_true,
}
use oap_spec.Coordinator.Chain.{submitted, segments-ingest_segment}

module _ {N : Type 0} (host : Host N) where
  -- `closeWorkflow` goes to the registry with a receipt exactly if the workflow is Active and its
  -- last receipt has no constraint that was evaluated to false; it goes with that receipt, and the
  -- workflow is then Closing with nothing else of it changed but the log.
  pub close_begin-eq-ok_iff :
      (n : ℕ) (w : Workflow N) (r : Receipt N)
      → ((close_begin host n w).result ≡ ok (some r)) ↔ (
          (w.state ≡ active)
          × (w.last_receipt ≡ some r)
          × (all (λ e. e.result) r.evaluations ≡ true))
  unfolding close_begin audit
  close_begin-eq-ok_iff n w r = elim (Option-cases w.last_receipt) [
    | inl never ↦ (λ e. absurd (ground arith), λ h. cc (h.1))
    | inr (last, issued) ↦ (λ e. (ground arith, ground arith, ground arith), λ h. ground arith)
  ]

  -- A revocation that invalidates the workflow while `closeWorkflow` waits for the registry is
  -- lost: the workflow is Invalidated, a terminal state, and ends up Closed.
  pub close_overrides_revocation :
      (event : Revocation) (n m k : ℕ) (w : Workflow N)
      → w.state ≡ active
      → all_true host w.last_receipt ≡ true
      → (event.event_type =s= "revoked") ≡ true
      → (event.consequence_class =s= "workflow_invalidating") ≡ true
      → ((handle_revocation host event m (close_begin host n w).workflow).workflow.state
          ≡ invalidated)
        × ((close_finish host k
              (handle_revocation host event m
                (close_begin host n w).workflow).workflow).workflow.state
            ≡ closed)
  unfolding close_begin handle_revocation close_finish audit
  close_overrides_revocation event n m k w a t e c = (ground arith, ground arith)

  -- The receipt that is anchored may not cover the workflow: in an Active workflow whose last
  -- receipt has all its constraints true, a segment that comes in after that receipt is added, and
  -- the workflow still closes with the old receipt.
  pub close_ignores_later_segment :
      (input : Submission N) (n m : ℕ) (w : Workflow N)
      → w.state ≡ active
      → all_true host w.last_receipt ≡ true
      → ((ingest_segment host input n w).workflow.segments
          ≡ w.segments ++ submitted host input n w ∷ [])
        × ((close_begin host m (ingest_segment host input n w).workflow).result ≡ ok w.last_receipt)
  unfolding close_begin audit ingest_segment activate
  close_ignores_later_segment input n m w a t =
      (rw (segments-ingest_segment host input n w) (ground arith), ground arith)
