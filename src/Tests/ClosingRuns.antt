-- ===== src/Tests/ClosingRuns.antt =====
-- The theorems on closing, applied to an Active workflow.
use oap_spec.Prelude.{ℕ, true, none, some, [], ◌∷◌}
use oap_spec.Coordinator.{active, Segment, Evaluation, Receipt, Workflow}
use oap_spec.Coordinator.Issue.{make_receipt}
use oap_spec.Coordinator.Closing.{Revocation}
use oap_spec.Tests.CoordinatorRuns.{toy, segment, workflow}

abbrev kept : Evaluation
kept = record { constraint_id = "same city"; result = true; evidence = "equals(a, b)" }

abbrev first : Segment ℕ
first = segment "flight" none (some "in two days")

abbrev receipt : Receipt ℕ
receipt = make_receipt toy (workflow active (first ∷ []) none) (kept ∷ [])

abbrev ready : Workflow ℕ
ready = workflow active (first ∷ []) (some receipt)

abbrev revoked : Revocation
revoked = record { event_type = "revoked"; consequence_class = "workflow_invalidating" }
