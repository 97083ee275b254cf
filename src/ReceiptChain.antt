-- ===== src/ReceiptChain.antt =====
-- `verifyChain` of tools/oap-receipt-chain/cli.js: the check of a list of receipts.
pub mod Continuity
use oap_spec.Prelude.{
  ℕ, suc, String, Bool, true, false, ◌||◌, Option, none, some, List, [], ◌∷◌, ◌++◌, ◌=s=◌, ltb_ℤ, ℤ,
  pos, if◌then◌else◌,
}
use oap_spec.Json.{
  Json, undefined, null, bool, num, str, arr, obj, Items, nil, cons, Fields, end, field,
  canonicalize,
}

-- A receipt, and what the check reads of it: a link or a signature that is missing or empty is none.
pub record Entry (N : Type 0) : Type 0 where
  pub json : Json N
  pub prev_receipt_hash : Option String
  pub issued_at : String  -- r.issued_at || r.timestamp || ''
  pub signature : Option String

pub data Issue : Type 0 where
  genesis_prev_should_be_null chain_break unparseable_timestamp non_monotonic_timestamp
        signature_invalid signature_error :
      (index : ℕ) → Issue

-- `check` is `crypto.verify` with the public key, none if it throws; there is none without a key.
pub record Host (N : Type 0) : Type 0 where
  pub stringify : Json N → String
  pub sha256_hex : String → String
  pub date : String → Option ℤ  -- negative before 1970
  pub check : Option (String → String → Option Bool)

-- `canonicalize` leaves these keys out, at any depth.
abbrev pub is_signature : String → Bool
is_signature k = (k =s= "signature") || (k =s= "sig")

unfoldable mutual
  pub unsigned : {N : Type 0} → Json N → Json N
  unsigned (arr vs) = arr (unsigned_items vs)
  unsigned (obj fs) = obj (unsigned_fields fs)
  unsigned undefined = undefined
  unsigned null = null
  unsigned (bool b) = bool b
  unsigned (num n) = num n
  unsigned (str s) = str s

  pub unsigned_items : {N : Type 0} → Items N → Items N
  unsigned_items nil = nil
  unsigned_items (cons v vs) = cons (unsigned v) (unsigned_items vs)

  pub unsigned_fields : {N : Type 0} → Fields N → Fields N
  unsigned_fields end = end
  unsigned_fields (field k v fs) = elim (is_signature k) [
    | true ↦ unsigned_fields fs
    | false ↦ field k (unsigned v) (unsigned_fields fs)
  ]

module _ {N : Type 0} (host : Host N) where
  unfoldable pub text_of : Entry N → String
  text_of r = canonicalize host.stringify (unsigned r.json)

  unfoldable pub hash_of : Entry N → String
  hash_of r = host.sha256_hex (text_of r)

  abbrev pub same_hash : Option String → Option String → Bool
  same_hash none none = true
  same_hash (some s) (some t) = s =s= t
  same_hash none (some t) = false
  same_hash (some s) none = false

  -- The first receipt has no link, and each other one the hash of the one before it.
  unfoldable pub link_issues : ℕ → (prev_hash : Option String) → Entry N → List Issue
  link_issues i none r = elim r.prev_receipt_hash [
    | none ↦ []
    | some _ ↦ genesis_prev_should_be_null i ∷ []
  ]
  link_issues i (some hash) r =
      if same_hash r.prev_receipt_hash (some hash) then [] else chain_break i ∷ []

  unfoldable pub time_issues : ℕ → (prev_ts : ℤ) → Option ℤ → List Issue
  time_issues i prev_ts none = unparseable_timestamp i ∷ []
  time_issues i prev_ts (some t) = if ltb_ℤ t prev_ts then non_monotonic_timestamp i ∷ [] else []

  abbrev pub next_ts : ℤ → Option ℤ → ℤ
  next_ts prev_ts none = prev_ts
  next_ts prev_ts (some t) = if ltb_ℤ t prev_ts then prev_ts else t

  unfoldable pub signature_issues : ℕ → Entry N → List Issue
  signature_issues i r = elim host.check [
    | none ↦ []
    | some check ↦ elim r.signature [
      | none ↦ []
      | some value ↦ elim (check (text_of r) value) [
        | none ↦ signature_error i ∷ []
        | some ok ↦ if ok then [] else signature_invalid i ∷ []
      ]
    ]
  ]

  -- The loop, from a receipt on; `prev_hash` is none before the first.
  unfoldable pub verify_from :
      ℕ → (prev_hash : Option String) → (prev_ts : ℤ) → List (Entry N) → List Issue
  verify_from i prev_hash prev_ts [] = []
  verify_from i prev_hash prev_ts (r ∷ rs) =
      link_issues i prev_hash r
      ++ (time_issues i prev_ts (host.date r.issued_at)
          ++ (signature_issues i r
              ++ verify_from (suc i) (some (hash_of r)) (next_ts prev_ts (host.date r.issued_at))
                  rs))

  unfoldable pub verify_chain : List (Entry N) → List Issue
  verify_chain receipts = verify_from 0 none (pos 0) receipts
