-- ===== src/Sdk/Memory.antt =====
-- `MemoryStore` (sdks/typescript/src/storage.ts). A Map is the list of its entries, in its order.
use mathlib.Core.List.{reverse}
use oap_spec.Prelude.{
  ℕ, zero, suc, ◌+◌, ◌-◌, String, true, false, ◌&&◌, Option, none, some, List, [], ◌∷◌, ◌++◌, ◌=s=◌,
  ltb, leb, if◌then◌else◌, length, lookup, store, ◌==◌,
}
use oap_spec.Json.{Json}
use oap_spec.Sdk.{Receipt, Subscription, Limit, nan, plus, minus, Tick, ReceiptStore}

pub record Bucket : Type 0 where
  pub count : ℕ
  pub expires_at : ℕ

pub record Memory (N : Type 0) : Type 0 where
  pub receipts : List (Receipt N)
  pub subscriptions : List (String × Subscription)
  pub incidents : List (Json N)
  pub chain_tip : String
  pub buckets : List (String × Bucket)

-- A new store.
abbrev pub empty : {N : Type 0} → Memory N
empty = record {
  receipts = [];
  subscriptions = [];
  incidents = [];
  chain_tip = "genesis";
  buckets = [];
}

unfoldable pub drop {ℓ} : {A : Type ℓ} → ℕ → List A → List A
drop zero xs = xs
drop (suc n) [] = []
drop (suc n) (x ∷ xs) = drop n xs

-- Array.prototype.slice at `-limit`; -0 and NaN are 0.
unfoldable pub slice_last {ℓ} : {A : Type ℓ} → Limit → List A → List A
slice_last nan xs = xs
slice_last (plus n) xs = if n == 0 then xs else drop (length xs - n) xs
slice_last (minus n) xs = drop n xs

module _ {N : Type 0} where
  unfoldable pub of_principal : String → List (Receipt N) → List (Receipt N)
  of_principal did [] = []
  of_principal did (r ∷ rs) =
      let rest = of_principal did rs in if r.principal_did =s= did then r ∷ rest else rest

  unfoldable pub not_of_principal : String → List (Receipt N) → List (Receipt N)
  not_of_principal did [] = []
  not_of_principal did (r ∷ rs) =
      let rest = not_of_principal did rs in if r.principal_did =s= did then rest else r ∷ rest

  unfoldable pub receipts_by_principal : String → Limit → Memory N → List (Receipt N)
  receipts_by_principal did limit m = reverse (slice_last limit (of_principal did m.receipts))

  unfoldable pub all_receipts : Limit → Memory N → List (Receipt N)
  all_receipts limit m = reverse (slice_last limit m.receipts)

  unfoldable pub delete_by_principal : String → Memory N → ℕ × Memory N
  delete_by_principal did m =
      let kept = not_of_principal did m.receipts in
      (length m.receipts - length kept, record m { receipts = kept })

-- The Map holds the object itself, so that it is changed in its place.
unfoldable pub cancel_in :
    (id now : String) → List (String × Subscription) → List (String × Subscription)
cancel_in id now [] = []
cancel_in id now ((j, s) ∷ rest) =
    let later = cancel_in id now rest in
    if j =s= id
    then (j, record s { status = "canceled"; canceled_at = some now }) ∷ rest
    else (j, s) ∷ later

unfoldable pub find_active : String → List (String × Subscription) → Option Subscription
find_active did [] = none
find_active did ((j, s) ∷ rest) =
    let later = find_active did rest in
    if (s.principal_did =s= did) && (s.status =s= "active") then some s else later

-- The loop over the buckets.
unfoldable pub remove_expired : ℕ → List (String × Bucket) → List (String × Bucket)
remove_expired now [] = []
remove_expired now ((k, b) ∷ rest) =
    let later = remove_expired now rest in if leb b.expires_at now then later else (k, b) ∷ later

-- The bucket, if there is one that has not expired.
unfoldable pub unexpired : ℕ → Option Bucket → Option Bucket
unexpired now none = none
unexpired now (some b) = if ltb now b.expires_at then some b else none

unfoldable pub increment :
    (key : String) → (ttl_ms : ℕ) → Tick → List (String × Bucket) → ℕ × List (String × Bucket)
increment key ttl_ms t buckets = elim (unexpired t.now (lookup key buckets)) [
  | some b ↦ (b.count + 1, store key (record b { count = b.count + 1 }) buckets)
  | none ↦
      let opened = store key (record { count = 1; expires_at = t.now + ttl_ms }) buckets in
      (1, (if t.cleans then remove_expired t.now opened else opened))
]

unfoldable pub memory_store : {N : Type 0} → ReceiptStore N (Memory N)
memory_store = record {
  insert_receipt = λ r m. record m { receipts = m.receipts ++ r ∷ [] };
  receipts_by_principal = receipts_by_principal;
  all_receipts = all_receipts;
  delete_by_principal = delete_by_principal;
  get_chain_tip = λ m. m.chain_tip;
  set_chain_tip = λ hash m. record m { chain_tip = hash };
  insert_subscription =
      λ s m. record m { subscriptions = store s.subscription_id s m.subscriptions };
  cancel_subscription = λ id now m. elim (lookup id m.subscriptions) [
    | none ↦ (false, m)
    | some _ ↦ (true, record m { subscriptions = cancel_in id now m.subscriptions })
  ];
  active_subscription = λ did m. find_active did m.subscriptions;
  insert_incident = λ i m. record m { incidents = m.incidents ++ i ∷ [] };
  list_incidents = λ limit m. reverse (slice_last limit m.incidents);
  rate_bucket_increment = λ key ttl_ms t m.
      let (count, after) = increment key ttl_ms t m.buckets in
      (count, record m { buckets = after });
}
