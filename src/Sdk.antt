-- ===== src/Sdk.antt =====
-- The TypeScript SDK: the interface `ReceiptStore` of sdks/typescript/src/types.ts, and what its server
-- and its stores share. A store is a state `S` with the operations of the interface.
pub mod Memory
pub mod Service
pub mod Counting
pub mod Stored
pub mod Ledger
pub mod Handling
use oap_spec.Prelude.{ℕ, String, Bool, Option, List, [], ◌∷◌, ◌++◌, ◌≡◌}
use oap_spec.Json.{Json}

-- A receipt: the object that is hashed, and the hash that is set on it afterwards.
pub record Receipt (N : Type 0) : Type 0 where
  pub receipt_id : String
  pub principal_did : String
  pub body : Json N
  pub self_hash : String

pub record Subscription : Type 0 where
  pub subscription_id : String
  pub principal_did : String
  pub agent_did : Option String
  pub tier : String
  pub status : String
  pub created_at : String
  pub canceled_at : Option String

-- A number that limits a listing, as parseInt and Math.min give it: `minus n` is -n.
pub data Limit : Type 0 where
  nan : Limit
  plus : ℕ → Limit
  minus : ℕ → Limit

-- What an increment draws: `Date.now()`, and whether old buckets are removed.
pub record Tick : Type 0 where
  pub now : ℕ
  pub cleans : Bool

pub record ReceiptStore (N S : Type 0) : Type 0 where
  pub insert_receipt : Receipt N → S → S
  pub receipts_by_principal : String → Limit → S → List (Receipt N)
  pub all_receipts : Limit → S → List (Receipt N)
  pub delete_by_principal : String → S → ℕ × S
  pub get_chain_tip : S → String
  pub set_chain_tip : String → S → S
  pub insert_subscription : Subscription → S → S
  pub cancel_subscription : (id now : String) → S → Bool × S
  pub active_subscription : String → S → Option Subscription
  pub insert_incident : Json N → S → S
  pub list_incidents : Limit → S → List (Json N)
  pub rate_bucket_increment : (key : String) → (ttl_ms : ℕ) → Tick → S → ℕ × S

-- What the server relies on: a store has its receipts, `held`, in the order of insertion, and only
-- `insertReceipt` and `setChainTip` change these and the tip, but for a deletion.
pub record IsStore {N S : Type 0} (store : ReceiptStore N S) : Type 0 where
  pub held : S → List (Receipt N)
  pub held-insert : (r : Receipt N) (s : S) → held (store.insert_receipt r s) ≡ held s ++ r ∷ []
  pub held-set : (h : String) (s : S) → held (store.set_chain_tip h s) ≡ held s
  pub tip-set : (h : String) (s : S) → store.get_chain_tip (store.set_chain_tip h s) ≡ h
  pub held-subscription : (b : Subscription) (s : S) → held (store.insert_subscription b s) ≡ held s
  pub tip-subscription :
      (b : Subscription) (s : S)
      → store.get_chain_tip (store.insert_subscription b s) ≡ store.get_chain_tip s
  pub held-cancel : (id now : String) (s : S) → held (store.cancel_subscription id now s).1 ≡ held s
  pub tip-cancel :
      (id now : String) (s : S)
      → store.get_chain_tip (store.cancel_subscription id now s).1 ≡ store.get_chain_tip s
  pub held-incident : (i : Json N) (s : S) → held (store.insert_incident i s) ≡ held s
  pub tip-incident :
      (i : Json N) (s : S) → store.get_chain_tip (store.insert_incident i s) ≡ store.get_chain_tip s
  pub held-increment :
      (key : String) (ttl_ms : ℕ) (t : Tick) (s : S)
      → held (store.rate_bucket_increment key ttl_ms t s).1 ≡ held s
  pub tip-increment :
      (key : String) (ttl_ms : ℕ) (t : Tick) (s : S)
      → store.get_chain_tip (store.rate_bucket_increment key ttl_ms t s).1 ≡ store.get_chain_tip s
