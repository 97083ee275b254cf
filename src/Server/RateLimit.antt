-- ===== src/Server/RateLimit.antt =====
-- `checkRpm` on the table `rate_buckets` (reference/server/server.js).
use oap_spec.Prelude.{
  ℕ, ◌+◌, ◌-◌, ◌/◌, ◌%◌, String, Bool, Option, none, some, List, [], ◌∷◌, ◌==◌, ◌=s=◌, ◌+s◌,
  if◌then◌else◌, ltb,
}

pub record Bucket : Type 0 where
  pub bucket_key : String
  pub count : ℕ
  pub expires_at : ℕ

pub data Answer : Type 0 where
  admitted : Answer
  retry_after_seconds : ℕ → Answer

-- A call with the three readings of `Date.now()` that `checkRpm` makes, and whether it collects old
-- buckets, which is drawn at random.
pub record Call : Type 0 where
  pub bucket_at : ℕ
  pub now : ℕ
  pub answered_at : ℕ
  pub collects : Bool

-- SELECT count … WHERE bucket_key = ? AND expires_at > ?
unfoldable pub select_count : String → ℕ → List Bucket → Option ℕ
select_count key now [] = none
select_count key now (b ∷ bs) =
    let later = select_count key now bs in
    if b.bucket_key =s= key then (if ltb now b.expires_at then some b.count else none) else later

-- INSERT … ON CONFLICT(bucket_key) DO UPDATE SET count = count + 1
unfoldable pub upsert : String → ℕ → List Bucket → List Bucket
upsert key expires_at [] = record { bucket_key = key; count = 1; expires_at = expires_at } ∷ []
upsert key expires_at (b ∷ bs) =
    let rest = upsert key expires_at bs in
    if b.bucket_key =s= key then record b { count = b.count + 1 } ∷ bs else b ∷ rest

-- DELETE … WHERE expires_at < ?
unfoldable pub delete_old : ℕ → List Bucket → List Bucket
delete_old now [] = []
delete_old now (b ∷ bs) =
    let rest = delete_old now bs in if ltb b.expires_at now then rest else b ∷ rest

abbrev pub or_zero : Option ℕ → ℕ
or_zero none = 0
or_zero (some n) = n

-- `show` gives the text of a number.
module _ (show : ℕ → String) where
  abbrev pub key_of : (principal action : String) → ℕ → String
  key_of principal action at = principal +s "__" +s action +s "__" +s show (at / 60000)

  unfoldable pub check_rpm :
      (rpm : ℕ) → (principal action : String) → Call → List Bucket → Answer × List Bucket
  check_rpm rpm principal action call table =
      let key = key_of principal action call.bucket_at in
      let next = or_zero (select_count key call.now table) + 1 in
      let counted = upsert key (call.now + 60000) table in
      if rpm == 0
      then (admitted, table)
      else if ltb rpm next
      then (retry_after_seconds (60 - call.answered_at % 60000 / 1000), table)
      else (admitted, (if call.collects then delete_old call.now counted else counted))
