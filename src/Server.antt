-- ===== src/Server.antt =====
-- The tool server of reference/server/server.js: its tables, and what it takes from the runtime. A
-- handler is a function on the tables; the texts of messages are left out.
pub mod RateLimit
pub mod Limits
pub mod Receipts
pub mod Invoke
pub mod Records
pub mod Teamwork
pub mod Ledger
pub mod Handling
pub mod Deletion
pub mod Verifying
pub mod Convention
use oap_spec.Prelude.{ℕ, String, Bool, true, false, Option, none, some, List, [], ◌∷◌}
use oap_spec.Json.{Json}
use oap_spec.Server.RateLimit.{Bucket}

-- A row of the table receipts; `body` is the receipt whose JSON it holds.
pub record Receipt (N : Type 0) : Type 0 where
  pub receipt_id : String
  pub type' : String
  pub timestamp : String
  pub principal_did : String
  pub agent_did : Option String
  pub action_id : Option String
  pub body : Json N
  pub self_hash : String

pub record Subscription : Type 0 where
  pub subscription_id : String
  pub principal_did : String
  pub tier : String
  pub status : String
  pub canceled_at : Option String

pub record Note : Type 0 where
  pub principal : String
  pub content : String

-- The database, the note store and `ahtAdmissionCounter`. `chain_tip` is the one row of chain_state.
pub record Tables (N : Type 0) : Type 0 where
  pub receipts : List (Receipt N)  -- in the order of insertion
  pub chain_tip : String
  pub subscriptions : List Subscription
  pub incidents : List (Json N)
  pub rate_buckets : List Bucket
  pub notes : List (String × Note)
  pub admissions : ℕ

pub record Host (N : Type 0) : Type 0 where
  pub tool_did : String
  pub stringify : Json N → String
  pub sha256_hex : String → String
  pub sign : String → String
  pub of_nat : ℕ → N
  pub is_falsy : Json N → Bool
  pub to_text : Json N → String  -- String(v)
  pub show : ℕ → String

-- What a call draws: ids, and readings of the clock as texts and as milliseconds.
pub record Draw : Type 0 where
  pub ulid : String
  pub policy_ulid : String
  pub now : String
  pub first_ms : ℕ
  pub second_ms : ℕ
