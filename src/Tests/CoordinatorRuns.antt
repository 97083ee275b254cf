-- ===== src/Tests/CoordinatorRuns.antt =====
-- A workflow of two roles, and the theorems on the coordinator's operations applied to it.
use Prim.Native.String
use oap_spec.Prelude.{
  ℕ, String, true, false, Option, none, some, List, [], ◌∷◌, ◌≡◌, ◌↔◌, refl, map, All, ◌=s=◌, inl,
  inr, arith, Bool-cases, ◌++◌, if◌then◌else◌,
}
use oap_spec.Json.{Json, str, null}
use oap_spec.Predicate.{evaluate_predicate, apply_arguments, apply_predicate}
use oap_spec.Predicate.Text.{
  is_word, is_newline, until_close, match_call, split_args_from, split_args,
}
use oap_spec.Coordinator.{
  State, opening, active, expired, Segment, Role, Manifest, Profile, Evaluation, Receipt, Workflow,
  Coordinator, Host,
}
use oap_spec.Coordinator.Segments.{
  wire, date_of, earlier, expired_at_observation, failed_constraints, verify_receipt,
}
use oap_spec.Coordinator.Machine.{ok}
use oap_spec.Coordinator.Opening.{open_workflow}
use oap_spec.Coordinator.Ingest.{Submission, make_segment, ingest_segment}
use oap_spec.Coordinator.Issue.{make_receipt, signed, evaluate_all, build_receipt}
use oap_spec.Coordinator.Chain.{IsChained, ingest_segment-IsChained, verify-build_receipt}
use oap_spec.Coordinator.Envelope.{IsDated}
use oap_spec.Coordinator.Admission.{Declares, IsStaffed, open_workflow-eq-ok_iff}
use oap_spec.Tests.{runtime}

abbrev shown : Json ℕ → String
shown (str s) = s
shown _ = "0"

-- A date is the number of its characters.
abbrev pub toy : Host ℕ
toy = record {
  runtime = runtime;
  coordinator_did = "did:web:coordinator";
  failover_did = some "did:web:failover";
  now = λ n. "now";
  sign = λ s. "signed";
  sha256_hex = λ s. "hash";
  stringify = shown;
  of_nat = λ n. n;
  date = λ s. if s =s= "soon" then none else some (String.len s);
  parse_int = λ s.
      if s =s= "0"
      then some 0
      else if s =s= "1"
      then some 1
      else if s =s= "2"
      then some 2
      else none;
}

abbrev flight : Role
flight = record {
  role_id = "flight";
  broker_category = "air";
  min_conformance = "M1";
  required = true;
}

abbrev hotel : Role
hotel = record {
  role_id = "hotel";
  broker_category = "stay";
  min_conformance = "M1";
  required = true;
}

abbrev pub trip : Manifest ℕ
trip = record {
  json = str "trip";
  workflow_manifest_id = "trip-1";
  expires_at = "later on";
  roles = flight ∷ hotel ∷ [];
  consistency_constraints =
      record { constraint_id = "same city"; predicate = "unknown(a, b)" } ∷ [];
}

abbrev pub segment : String → Option String → Option String → Segment ℕ
segment role previous expires = record {
  role_id = role;
  broker_did = "did:web:broker";
  match_receipt_hash = str "sha256:m";
  broker_tree_head = null;
  inclusion_proof = null;
  segment_signature = str "sig";
  issued_at = "now";
  expires_at = expires;
  prev_segment_hash = previous;
  payload = none;
  attestations = none;
}

abbrev pub submission : Submission ℕ
submission = record {
  role_id = "hotel";
  broker_did = "did:web:hotels";
  match_receipt_hash = str "sha256:h";
  broker_tree_head = null;
  inclusion_proof = null;
  segment_signature = str "sig";
  issued_at = none;
  expires_at = some "in an hour";
  payload = none;
  attestations = none;
}

abbrev pub workflow : State → List (Segment ℕ) → Option (Receipt ℕ) → Workflow ℕ
workflow s segments last = record {
  workflow_id = "wf-1";
  manifest = trip;
  manifest_hash = "sha256:trip";
  initiator_did = "did:web:initiator";
  selected_brokers = [];
  opened_at = "now";
  state = s;
  segments = segments;
  last_receipt = last;
  audit_log = [];
}

abbrev first : Segment ℕ
first = segment "flight" none (some "in two days")

abbrev opened : Workflow ℕ
opened = workflow opening (first ∷ []) none

ingest_segment-IsChained_example : IsChained toy (ingest_segment toy submission 3 opened).workflow
ingest_segment-IsChained_example = ingest_segment-IsChained toy submission 3 opened (refl, tt)

abbrev second : Segment ℕ
second = make_segment toy submission "now" (first ∷ [])

abbrev staffed_trip : Workflow ℕ
staffed_trip = workflow active (first ∷ second ∷ []) none

abbrev pub outcomes : List Evaluation
outcomes = record { constraint_id = "same city"; result = false; evidence = "unknown(a, b)" } ∷ []

abbrev issued : Receipt ℕ
issued = signed toy (make_receipt toy staffed_trip outcomes)

verify-build_receipt_example :
    (issued.segments ≡ map wire (first ∷ second ∷ []))
    × (verify_receipt toy issued "a long time after"
        ≡ (if earlier (date_of toy issued.effective_expires_at) (toy.date "a long time after")
            then expired_at_observation ∷ []
            else [])
          ++ failed_constraints toy issued.evaluations)
unfolding make_segment build_receipt evaluate_all evaluate_predicate apply_arguments apply_predicate
    split_args split_args_from match_call until_close is_word is_newline
verify-build_receipt_example =
    verify-build_receipt toy 5 staffed_trip issued "a long time after" (refl, (refl, tt)) refl

dated : (s : Segment ℕ) → s.expires_at ≡ some "in two days" → IsDated toy s
dated s e = record { text = "in two days"; at = 11; given = e; filled = refl; parsed = refl }

abbrev undated : Segment ℕ
undated = segment "flight" none (some "soon")

abbrev open_ended : Receipt ℕ
open_ended = make_receipt toy (workflow active (undated ∷ first ∷ []) none) outcomes

abbrev registry : String → Option Profile
registry did =
    if did =s= "did:web:air"
    then some (record { broker_category = "air"; declared_conformance = some "M2" })
    else if did =s= "did:web:stay"
    then some (record { broker_category = "stay"; declared_conformance = some "M1" })
    else none

registry-Declares :
    (did : String) (profile : Profile)
    → registry did ≡ some profile
    → (n : ℕ) × Declares toy profile n
registry-Declares did profile found = elim (Bool-cases (did =s= "did:web:air")) [
  | inl air ↦ (2, inr ("M2", ground (arith, air, found), ("2", refl, refl)))
  | inr no_air ↦ elim (Bool-cases (did =s= "did:web:stay")) [
    | inl stay ↦ (1, inr ("M1", ground (arith, no_air, stay, found), ("1", refl, refl)))
    | inr other ↦ absurd (ground (arith, no_air, other, found))
  ]
]

abbrev chosen : List (String × String)
chosen = ("flight", "did:web:air") ∷ ("hotel", "did:web:stay") ∷ []

abbrev fresh : Coordinator ℕ
fresh = record { workflows = []; heartbeat_counter = 0; heartbeat_store = []; readings = 0 }

open_workflow-eq-ok_iff_example :
    ((open_workflow toy registry "wf-1" trip "did:web:initiator" chosen fresh).0 ≡ ok "wf-1")
    ↔ All (IsStaffed toy registry chosen) trip.roles
open_workflow-eq-ok_iff_example =
    open_workflow-eq-ok_iff toy registry chosen refl registry-Declares "wf-1" trip
      "did:web:initiator" fresh ((1, ("1", refl, refl)), ((1, ("1", refl, refl)), tt))

abbrev two_workflows : Coordinator ℕ
two_workflows = record {
  workflows = ("wf-1", staffed_trip) ∷ ("wf-2", workflow expired [] none) ∷ [];
  heartbeat_counter = 4;
  heartbeat_store = [];
  readings = 0;
}

abbrev forged : Segment ℕ
forged = segment "flight" none (some "in a hundred years")
