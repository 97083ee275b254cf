-- ===== src/Coordinator/Machine.antt =====
-- The shape of the methods of `Coordinator` (reference/coordinator/coordinator.js). A method that
-- works on one workflow is a function on it and on the number of readings of the clock so far.
use oap_spec.Prelude.{
  ℕ, String, Option, none, some, [], ◌∷◌, ◌++◌, ◌=s=◌, if◌then◌else◌, lookup, store,
}
use oap_spec.Coordinator.{Error, not_found, Event, Workflow, Coordinator, Host}

pub data Result {ℓ} (A : Type ℓ) : Type ℓ where
  ok : A → Result A
  err : Error → Result A

pub record Out {ℓ} (N : Type 0) (A : Type ℓ) : Type ℓ where
  pub result : Result A
  pub workflow : Workflow N
  pub readings : ℕ

abbrev pub or_text : Option String → String → String
or_text none d = d
or_text (some s) d = if s =s= "" then d else s

module _ {N : Type 0} (host : Host N) where
  -- `_audit`, for a workflow that is there
  unfoldable pub audit : ℕ → Event → Workflow N → Workflow N
  audit n event w = record w {
    audit_log = w.audit_log ++ record { ts = host.now n; event = event } ∷ [];
  }

module _ {N : Type 0} where
  -- `_mustWorkflow`, and what the method does to the workflow
  unfoldable pub on_workflow {ℓ} :
      {A : Type ℓ} → String → (ℕ → Workflow N → Out N A) → Coordinator N → Result A × Coordinator N
  on_workflow id method c = elim (lookup id c.workflows) [
    | none ↦ (err not_found, c)
    | some w ↦
        let out = method c.readings w in
        (
          out.result,
          record c { workflows = store id out.workflow c.workflows; readings = out.readings },
        )
  ]
