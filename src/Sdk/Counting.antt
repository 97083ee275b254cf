-- ===== src/Sdk/Counting.antt =====
-- `rateBucketIncrement` of `MemoryStore` (sdks/typescript/src/storage.ts) against counters that are a
-- function of the key and forget nothing.
use oap_spec.Prelude.{
  ℕ, ◌+◌, ◌≤◌, String, false, Option, none, some, List, [], ◌∷◌, ◌≡◌, refl, ◌∙◌, arith, ◌=s=◌, leb,
  lookup, store, lookup-store, lookup-store_ne, All, Bool-cases, Option-cases, inl, inr, eq_iff,
  if◌then◌else◌,
}
use oap_spec.Sdk.{Tick}
use oap_spec.Sdk.Memory.{Bucket, unexpired, remove_expired, increment}

-- A call, at the key and with the life of a bucket.
pub record Event : Type 0 where
  pub key : String
  pub ttl_ms : ℕ
  pub tick : Tick

abbrev pub Counters : Type 0
Counters = String → Option Bucket

abbrev update : String → Bucket → Counters → Counters
update key b f k = if key =s= k then some b else f k

-- One more call of the key in its bucket, or the first one in a new bucket.
abbrev pub count_call : Event → Counters → ℕ × Counters
count_call e f = elim (unexpired e.tick.now (f e.key)) [
  | some b ↦ (b.count + 1, update e.key (record b { count = b.count + 1 }) f)
  | none ↦ (1, update e.key (record { count = 1; expires_at = e.tick.now + e.ttl_ms }) f)
]

-- The answers to a run of calls.
abbrev pub answers : List (String × Bucket) → List Event → List ℕ
answers buckets [] = []
answers buckets (e ∷ es) =
    (increment e.key e.ttl_ms e.tick buckets).0
    ∷ answers (increment e.key e.ttl_ms e.tick buckets).1 es

abbrev pub counts : Counters → List Event → List ℕ
counts f [] = []
counts f (e ∷ es) = (count_call e f).0 ∷ counts (count_call e f).1 es

-- The clock does not go back.
abbrev pub Rises : ℕ → List Event → Type 0
Rises now [] = Unit
Rises now (e ∷ es) = (now ≤ e.tick.now) × Rises e.tick.now es

abbrev IsAbsent : String → List (String × Bucket) → Type 0
IsAbsent key buckets = All (λ p. (p.0 =s= key) ≡ false) buckets

abbrev HasOneEach : List (String × Bucket) → Type 0
HasOneEach [] = Unit
HasOneEach (p ∷ rest) = IsAbsent p.0 rest × HasOneEach rest

-- From a time on, the buckets that have not expired are those of the counters.
abbrev Agrees : ℕ → List (String × Bucket) → Counters → Type 0
Agrees now buckets f =
    (t : ℕ) (k : String) → now ≤ t → unexpired t (lookup k buckets) ≡ unexpired t (f k)

ne_comm : (s t : String) → (s =s= t) ≡ false → (t =s= s) ≡ false
ne_comm s t h = ground (arith, (eq_iff s t).0, (eq_iff t s).0, (eq_iff s t).1)

store-IsAbsent :
    (key k : String) (b : Bucket) (buckets : List (String × Bucket))
    → (k =s= key) ≡ false
    → IsAbsent key buckets
    → IsAbsent key (store k b buckets)
unfolding store
store-IsAbsent key k b [] ne h = (ne, tt)
store-IsAbsent key k b ((j, c) ∷ rest) ne h = elim (Bool-cases (j =s= k)) [
  | inl e ↦ rw e (ne, h.1)
  | inr e ↦ rw e (h.0, store-IsAbsent key k b rest ne h.1)
]

store-HasOneEach :
    (k : String) (b : Bucket) (buckets : List (String × Bucket))
    → HasOneEach buckets
    → HasOneEach (store k b buckets)
unfolding store
store-HasOneEach k b [] h = (tt, tt)
store-HasOneEach k b ((j, c) ∷ rest) h = elim (Bool-cases (j =s= k)) [
  | inl e ↦ rw e (rw ((eq_iff j k).0 e) at h)
  | inr e ↦ rw e (store-IsAbsent j k b rest (ne_comm j k e) h.0, store-HasOneEach k b rest h.1)
]

remove_expired-IsAbsent :
    (key : String) (now : ℕ) (buckets : List (String × Bucket))
    → IsAbsent key buckets
    → IsAbsent key (remove_expired now buckets)
unfolding remove_expired
remove_expired-IsAbsent key now [] h = tt
remove_expired-IsAbsent key now ((j, c) ∷ rest) h = elim (Bool-cases (leb c.expires_at now)) [
  | inl e ↦ rw e (remove_expired-IsAbsent key now rest h.1)
  | inr e ↦ rw e (h.0, remove_expired-IsAbsent key now rest h.1)
]

remove_expired-HasOneEach :
    (now : ℕ) (buckets : List (String × Bucket))
    → HasOneEach buckets
    → HasOneEach (remove_expired now buckets)
unfolding remove_expired
remove_expired-HasOneEach now [] h = tt
remove_expired-HasOneEach now ((j, c) ∷ rest) h = elim (Bool-cases (leb c.expires_at now)) [
  | inl e ↦ rw e (remove_expired-HasOneEach now rest h.1)
  | inr e ↦ rw e (remove_expired-IsAbsent j now rest h.0, remove_expired-HasOneEach now rest h.1)
]

lookup-absent :
    (k : String) (buckets : List (String × Bucket)) → IsAbsent k buckets → lookup k buckets ≡ none
lookup-absent k [] h = refl
lookup-absent k ((j, c) ∷ rest) h = rw h.0 (lookup-absent k rest h.1)

-- A removal is not seen from then on.
lookup-remove_expired :
    (k : String) (now t : ℕ) (buckets : List (String × Bucket))
    → now ≤ t
    → HasOneEach buckets
    → unexpired t (lookup k (remove_expired now buckets)) ≡ unexpired t (lookup k buckets)
unfolding remove_expired unexpired
lookup-remove_expired k now t [] le h = refl
lookup-remove_expired k now t ((j, c) ∷ rest) le h = elim (Bool-cases (j =s= k)) [
  | inl e ↦
      let gone : lookup k (remove_expired now rest) ≡ none =
        lookup-absent k _ (remove_expired-IsAbsent k now rest (rw ((eq_iff j k).0 e) at (h.0))) in
      ground (arith, gone, e)
  | inr e ↦ ground (arith, lookup-remove_expired k now t rest le h.1, e)
]

lookup-store_if :
    (k j : String) (b : Bucket) (buckets : List (String × Bucket))
    → lookup k (store j b buckets) ≡ (if j =s= k then some b else lookup k buckets)
lookup-store_if k j b buckets = elim (Bool-cases (j =s= k)) [
  | inl e ↦ rw (e, (eq_iff j k).0 e) (lookup-store k buckets b)
  | inr e ↦ rw e (lookup-store_ne k j buckets b e)
]

store-Agrees :
    (now later : ℕ) (key : String) (b : Bucket) (buckets : List (String × Bucket)) (f : Counters)
    → now ≤ later
    → Agrees now buckets f
    → Agrees later (store key b buckets) (update key b f)
store-Agrees now later key b buckets f le h t k le' =
    rw (lookup-store_if k key b buckets)
      (elim (Bool-cases (key =s= k)) [ inl e ↦ rw e refl | inr e ↦ rw e (h t k (omega arith)) ])

record Matches (now : ℕ) (a : ℕ × List (String × Bucket)) (b : ℕ × Counters) : Type 0 where
  count : a.0 ≡ b.0
  agrees : Agrees now a.1 b.1
  unique : HasOneEach a.1

increment-Matches :
    (now : ℕ) (e : Event) (buckets : List (String × Bucket)) (f : Counters)
    → now ≤ e.tick.now
    → Agrees now buckets f
    → HasOneEach buckets
    → Matches e.tick.now (increment e.key e.ttl_ms e.tick buckets) (count_call e f)
unfolding increment
increment-Matches now e buckets f le h u = elim (Option-cases (unexpired e.tick.now (f e.key))) [
  | inr (b, found) ↦
      rw (h e.tick.now e.key le ∙ found, found, increment, count_call)
        (record {
          count = refl;
          agrees = store-Agrees now e.tick.now e.key _ buckets f le h;
          unique = store-HasOneEach e.key _ buckets u;
        })
  | inl fresh ↦
      let opened : Bucket = record { count = 1; expires_at = e.tick.now + e.ttl_ms } in
      rw (h e.tick.now e.key le ∙ fresh, fresh, increment, count_call)
        (elim (Bool-cases e.tick.cleans) [
          | inl c ↦ rw c (record {
            count = refl;
            agrees = λ t k le'.
                lookup-remove_expired k e.tick.now t (store e.key opened buckets) le'
                  (store-HasOneEach e.key opened buckets u)
                ∙ store-Agrees now e.tick.now e.key opened buckets f le h t k le';
            unique =
                remove_expired-HasOneEach e.tick.now _ (store-HasOneEach e.key opened buckets u);
          })
          | inr c ↦ rw c (record {
            count = refl;
            agrees = store-Agrees now e.tick.now e.key opened buckets f le h;
            unique = store-HasOneEach e.key opened buckets u;
          })
        ])
]

answers-counts_from :
    (now : ℕ) (buckets : List (String × Bucket)) (f : Counters) (es : List Event)
    → Rises now es
    → Agrees now buckets f
    → HasOneEach buckets
    → answers buckets es ≡ counts f es
answers-counts_from now buckets f [] r h u = refl
answers-counts_from now buckets f (e ∷ es) r h u =
    let m = increment-Matches now e buckets f r.0 h u in
    cc (
      m.count,
      answers-counts_from e.tick.now (increment e.key e.ttl_ms e.tick buckets).1 (count_call e f).1
          es r.1 m.agrees m.unique,
    )

-- A new store answers any run of calls as counters do that are a function of the key and forget
-- nothing, whichever calls remove old buckets, if the clock does not go back.
pub answers-eq-counts : (es : List Event) → Rises 0 es → answers [] es ≡ counts (λ k. none) es
answers-eq-counts es r = answers-counts_from 0 [] (λ k. none) es r (λ t k le. refl) tt
