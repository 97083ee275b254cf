-- ===== src/Coordinator.antt =====
-- The workflow coordinator of reference/coordinator/coordinator.js: its data. The operations stand
-- in the modules below.
pub mod Segments
pub mod Machine
pub mod Opening
pub mod Ingest
pub mod Issue
pub mod Closing
pub mod Liveness
pub mod Chain
pub mod Relinking
pub mod Transitions
pub mod Closed
pub mod Envelope
pub mod Admission
pub mod Heartbeats
use oap_spec.Prelude.{ℕ, String, Bool, true, false, Option, none, some, List}
use oap_spec.Json.{Json}
use oap_spec.Predicate.{Runtime}

-- STATES
pub data State : Type 0 where
  opening active invalidating closing expiring invalidated closed expired : State

-- TERMINAL_STATES
abbrev pub is_terminal : State → Bool
is_terminal invalidated = true
is_terminal closed = true
is_terminal expired = true
is_terminal _ = false

abbrev pub is_opening : State → Bool
is_opening opening = true
is_opening _ = false

abbrev pub is_active : State → Bool
is_active active = true
is_active _ = false

-- The messages of the errors that the methods throw; `crashed` is the runtime's own TypeError.
pub data Error : Type 0 where
  not_staffed no_profile wrong_category below_conformance : Error
  terminal not_found too_few_segments cannot_close unsatisfied : Error
  short_wait not_declared crashed : Error

pub record Segment (N : Type 0) : Type 0 where
  pub role_id : String
  pub broker_did : String
  pub match_receipt_hash : Json N
  pub broker_tree_head : Json N
  pub inclusion_proof : Json N
  pub segment_signature : Json N
  pub issued_at : String
  pub expires_at : Option String
  pub prev_segment_hash : Option String
  pub payload : Option (Json N)
  pub attestations : Option (Json N)

pub record Role : Type 0 where
  pub role_id : String
  pub broker_category : String
  pub min_conformance : String
  pub required : Bool

pub record Constraint : Type 0 where
  pub constraint_id : String
  pub predicate : String

-- `json` is the whole manifest, of which the other fields are read.
pub record Manifest (N : Type 0) : Type 0 where
  pub json : Json N
  pub workflow_manifest_id : String
  pub expires_at : String
  pub roles : List Role
  pub consistency_constraints : List Constraint

pub record Profile : Type 0 where
  pub broker_category : String
  pub declared_conformance : Option String

pub record Evaluation : Type 0 where
  pub constraint_id : String
  pub result : Bool
  pub evidence : String

-- A Cross Match Receipt. Its segments have no `payload` and no `attestations`.
pub record Receipt (N : Type 0) : Type 0 where
  pub workflow_id : String
  pub workflow_manifest_id : String
  pub workflow_manifest_hash : String
  pub initiator_did : String
  pub coordinator_did : String
  pub failover_did : Option String
  pub opened_at : String
  pub expires_at : String
  pub segments : List (Segment N)
  pub evaluations : List Evaluation
  pub effective_expires_at : Option String
  pub heartbeat_anchor : String
  pub signatures : List (String × String)

pub data Event : Type 0 where
  workflow_open segment_ingested receipt_issued revocation revocation_non_fatal : Event
  transition : State → Event

pub record Audit : Type 0 where
  pub ts : String
  pub event : Event

pub record Workflow (N : Type 0) : Type 0 where
  pub workflow_id : String
  pub manifest : Manifest N
  pub manifest_hash : String
  pub initiator_did : String
  pub selected_brokers : List (String × String)
  pub opened_at : String
  pub state : State
  pub segments : List (Segment N)
  pub last_receipt : Option (Receipt N)
  pub audit_log : List Audit

pub record Heartbeat : Type 0 where
  pub coordinator_did : String
  pub workflow_id : String
  pub counter : ℕ
  pub latest_receipt_hash : Option String
  pub issued_at : String
  pub signature : String

-- `readings` counts the calls of `now`, which may each give another text.
pub record Coordinator (N : Type 0) : Type 0 where
  pub workflows : List (String × Workflow N)
  pub heartbeat_counter : ℕ
  pub heartbeat_store : List (String × Heartbeat)
  pub readings : ℕ

-- What the coordinator is given or takes from the runtime: the options of its constructor, SHA-256,
-- the texts of primitives, and `new Date(text)` in milliseconds (none is an invalid date).
pub record Host (N : Type 0) : Type 0 where
  pub runtime : Runtime N
  pub coordinator_did : String
  pub failover_did : Option String
  pub now : ℕ → String
  pub sign : String → String
  pub sha256_hex : String → String
  pub stringify : Json N → String
  pub of_nat : ℕ → N
  pub date : String → Option ℕ
  pub parse_int : String → Option ℕ  -- none is NaN
