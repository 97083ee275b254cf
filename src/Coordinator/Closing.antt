-- ===== src/Coordinator/Closing.antt =====
-- `handleRevocation`, `closeWorkflow` and `tickExpiry` (reference/coordinator/coordinator.js).
-- `closeWorkflow` is two functions, before and after it waits for the registry.
use oap_spec.Prelude.{
  ℕ, ◌+◌, String, Bool, false, not, ◌&&◌, ◌||◌, Option, none, some, List, [], ◌∷◌, ◌=s=◌,
  if◌then◌else◌, all,
}
use oap_spec.Coordinator.{
  invalidating, closing, invalidated, closed, expired, is_terminal, is_active, cannot_close,
  unsatisfied, Receipt, revocation, revocation_non_fatal, transition, Workflow, Coordinator, Host,
}
use oap_spec.Coordinator.Segments.{date_of, earlier}
use oap_spec.Coordinator.Machine.{ok, err, Out, audit}

pub record Revocation : Type 0 where
  pub event_type : String
  pub consequence_class : String

module _ {N : Type 0} (host : Host N) where
  unfoldable pub handle_revocation : Revocation → ℕ → Workflow N → Out N (Unit {0})
  handle_revocation event n w =
      if is_terminal w.state || not (event.event_type =s= "revoked")
      then record { result = ok tt; workflow = w; readings = n }
      else if event.consequence_class =s= "workflow_invalidating"
      then record {
        result = ok tt;
        workflow =
            audit host (n + 1) (transition invalidated)
              (record (audit host n revocation (record w { state = invalidating })) {
                state = invalidated;
              });
        readings = n + 2;
      }
      else record {
        result = ok tt;
        workflow = audit host n revocation_non_fatal w;
        readings = n + 1;
      }

  -- `closeWorkflow` up to its `await`: the receipt that goes to the registry.
  abbrev pub all_true : Option (Receipt N) → Bool
  all_true none = false
  all_true (some r) = all (λ e. e.result) r.evaluations

  unfoldable pub close_begin : ℕ → Workflow N → Out N (Option (Receipt N))
  close_begin n w =
      if not (is_active w.state)
      then record { result = err cannot_close; workflow = w; readings = n }
      else if not (all_true w.last_receipt)
      then record { result = err unsatisfied; workflow = w; readings = n }
      else record {
        result = ok w.last_receipt;
        workflow = audit host n (transition closing) (record w { state = closing });
        readings = n + 1;
      }

  -- The rest of it, once the registry has answered.
  unfoldable pub close_finish : ℕ → Workflow N → Out N (Option (Receipt N))
  close_finish n w =
      let closed_now = audit host n (transition closed) (record w { state = closed }) in
      record { result = ok closed_now.last_receipt; workflow = closed_now; readings = n + 1 }

  abbrev pub is_overdue : String → Workflow N → Bool
  is_overdue now w = elim w.last_receipt [
    | none ↦ false
    | some r ↦ earlier (date_of host r.effective_expires_at) (host.date now)
  ]

  unfoldable pub expire : String → ℕ → Workflow N → Out N (Unit {0})
  expire now n w =
      if not (is_terminal w.state) && is_overdue now w
      then record {
        result = ok tt;
        workflow = audit host n (transition expired) (record w { state = expired });
        readings = n + 1;
      }
      else record { result = ok tt; workflow = w; readings = n }

  -- The loop of `tickExpiry`.
  unfoldable pub expire_all :
      String → ℕ → List (String × Workflow N) → List (String × Workflow N) × ℕ
  expire_all now n [] = ([], n)
  expire_all now n ((id, w) ∷ rest) =
      let out = expire now n w in
      let (later, m) = expire_all now out.readings rest in ((id, out.workflow) ∷ later, m)

  unfoldable pub tick_expiry : String → Coordinator N → Coordinator N
  tick_expiry now c =
      let (workflows, n) = expire_all now c.readings c.workflows in
      record c { workflows = workflows; readings = n }
