-- ===== src/Broker/Answers.antt =====
-- What a client may rely on in an answer of the broker (reference/match-broker/broker.js).
use oap_spec.Prelude.{
  ℕ, zero, suc, ℤ, pos, negsuc, ltb, ◌≢◌, ◌-◌, ◌≤◌, String, Bool, true, false, Option, none, some,
  List, [], ◌∷◌, ◌≡◌, refl, arith, get_elem?, length, All, All-of_map, All-at, Bool-cases, ◌⊎◌, inl,
  inr, ◌==◌, ◌=s=◌, sort_by-All,
}
use oap_spec.Merkle.{verify_inclusion_proof}
use oap_spec.Broker.{Host, Row, Broker}
use oap_spec.Broker.Filter.{passes_constraints}
use oap_spec.Broker.Ranking.{Ranked, rank_one, rank_candidates}
use oap_spec.Broker.Resolve.{
  Engine, Query, Listed, limit_of, slice_first, slice_to, select_passing, list_one, list_from,
  ranked_of, resolve,
}
use oap_spec.Broker.Published.{Reach, Reach-IsProved}

module _ {ℓ κ} {A : Type ℓ} (P : A → Type κ) where
  slice_first-All : (n : ℕ) (xs : List A) → All P xs → All P (slice_first n xs)
  unfolding slice_first
  slice_first-All n [] h = tt
  slice_first-All n (x ∷ xs) h = elim (Bool-cases (n == 0)) [
    | inl e ↦ rw e tt
    | inr e ↦ rw e (h.0, slice_first-All (n - 1) xs h.1)
  ]

  slice_to-All : (n : ℤ) (xs : List A) → All P xs → All P (slice_to n xs)
  unfolding slice_to
  slice_to-All (pos n) xs h = slice_first-All n xs h
  slice_to-All (negsuc n) xs h = slice_first-All (length xs - suc n) xs h

  select_passing-All :
      (test : A → Bool) (xs : List A)
      → All P xs
      → All (λ x. P x × (test x ≡ true)) (select_passing test xs)
  unfolding select_passing
  select_passing-All test [] h = tt
  select_passing-All test (x ∷ xs) h = elim (Bool-cases (test x)) [
    | inl e ↦ rw e ((h.0, e), select_passing-All test xs h.1)
    | inr e ↦ rw e (select_passing-All test xs h.1)
  ]

length-slice_first {ℓ} : {A : Type ℓ} (n : ℕ) (xs : List A) → length (slice_first n xs) ≤ n
unfolding slice_first
length-slice_first n [] = omega arith
length-slice_first n (x ∷ xs) = elim (Bool-cases (n == 0)) [
  | inl e ↦ rw e (omega arith)
  | inr e ↦ rw e (step n _ e (length-slice_first (n - 1) xs))
]
  where
    step : (n k : ℕ) → (n == 0) ≡ false → k ≤ n - 1 → suc k ≤ n
    step n k e h = ground arith

-- A number of candidates is what an intent that asks for `top_k` may be answered with.
abbrev pub IsWithin : Option ℤ → ℕ → Type 0
IsWithin none n = n ≤ 10
IsWithin (some (pos zero)) n = n ≤ 10
IsWithin (some (pos (suc k))) n = (n ≤ suc k) × (n ≤ 50)
IsWithin (some (negsuc k)) n = ⊥

limit_of-suc :
    (k : ℕ)
    → ((limit_of (some (pos (suc k))) ≡ pos 50) × (50 ≤ suc k))
      ⊎ ((limit_of (some (pos (suc k))) ≡ pos (suc k)) × (suc k ≤ 50))
unfolding limit_of
limit_of-suc k = elim (Bool-cases (ltb 50 (suc k))) [
  | inl big ↦ inl (ground (arith, big), ground (arith, big))
  | inr small ↦ inr (ground (arith, small), ground (arith, small))
]

IsWithin-slice_to {ℓ} :
    {A : Type ℓ} (top_k : Option ℤ) (n : ℕ) (xs : List A)
    → ((k : ℕ) → top_k ≢ some (negsuc k))
    → n ≡ length (slice_to (limit_of top_k) xs)
    → IsWithin top_k n
unfolding slice_to limit_of
IsWithin-slice_to none n xs h e = omega (arith, e, length-slice_first 10 xs)
IsWithin-slice_to (some (pos zero)) n xs h e = omega (arith, e, length-slice_first 10 xs)
IsWithin-slice_to (some (pos (suc k))) n xs h e = elim (limit_of-suc k) [
  | inl (l, big) ↦
      let m : n ≤ 50 = rw e (rw l (length-slice_first 50 xs)) in (omega (arith, big, m), m)
  | inr (l, small) ↦
      let m : n ≤ suc k = rw e (rw l (length-slice_first (suc k) xs)) in
      (m, omega (arith, small, m))
]
IsWithin-slice_to (some (negsuc k)) n xs h e = h k refl

module _ {N : Type 0} (host : Host N) (engine : Engine N) (version : String) (b : Broker N)
    (query : Query N) where
  -- The table's row of a ranked candidate.
  abbrev Placed : Row N → Type 0
  Placed row =
      ((j : ℕ) × (get_elem? b.manifests j ≡ some row))
      × (passes_constraints engine.floats.num_lt engine.categories_of row query.filters ≡ true)

  -- A candidate of the answer is a registered manifest that passes the filters, with its leaf, the root
  -- that the answer names, and a path from the one to the other that a client's check accepts.
  pub record IsBacked (l : Listed N) : Type 0 where
    pub row : Row N
    pub place : ℕ
    pub root : String
    pub registered : get_elem? b.manifests place ≡ some row
    pub passes :
        passes_constraints engine.floats.num_lt engine.categories_of row query.filters ≡ true
    pub provider : l.provider_did ≡ row.provider_did
    pub leaf : l.leaf_hash ≡ some row.leaf_hash
    pub root_hash : l.root_hash ≡ some root
    pub index_root : (resolve engine version b query).index_root ≡ some root
    pub verified : verify_inclusion_proof host.sha256 row.leaf_hash l.proof_path root ≡ true

  list_from-All :
      (P : Ranked N → Type 0) (Q : Listed N → Type 0)
      → ((rank : ℕ) (c : Ranked N) → P c → Q (list_one engine version b rank c))
      → (rank : ℕ) (cs : List (Ranked N)) → All P cs
      → All Q (list_from engine version b rank cs)
  unfolding list_from
  list_from-All P Q f rank [] h = tt
  list_from-All P Q f rank (c ∷ cs) h = (f rank c h.0, list_from-All P Q f (suc rank) cs h.1)

  length-list_from :
      (rank : ℕ) (cs : List (Ranked N)) → length (list_from engine version b rank cs) ≡ length cs
  unfolding list_from
  length-list_from rank [] = refl
  length-list_from rank (c ∷ cs) = omega (arith, length-list_from (suc rank) cs)

  ranked_of-Placed :
      (rows : List (Row N))
      → All Placed rows
      → All (λ c. Placed c.row) (ranked_of engine version b query rows)
  unfolding ranked_of rank_candidates rank_one
  ranked_of-Placed rows h =
      sort_by-All _ (λ c. Placed c.row) _ (All-of_map _ (λ c. Placed c.row) rows h)

  -- If the number of candidates that an intent asks for is an integer and not negative, or missing, its
  -- answer has at most as many as it asks for and at most fifty, and at most ten if it asks for no number
  -- or for 0.
  pub length-resolve :
      ((k : ℕ) → query.top_k ≢ some (negsuc k))
      → IsWithin query.top_k (length (resolve engine version b query).candidates)
  unfolding resolve
  length-resolve h = IsWithin-slice_to query.top_k _ _ h (length-list_from 0 _)

  module _ (no_empty : (s : String) → (host.sha256 s =s= "") ≡ false) (reach : Reach host b) where
    list_one-IsBacked :
        (rank : ℕ) (c : Ranked N) → Placed c.row → IsBacked (list_one engine version b rank c)
    unfolding list_one resolve
    list_one-IsBacked rank c ((j, e), passes) =
        let p = Reach-IsProved host no_empty j c.row reach e in
        record {
          row = c.row;
          place = j;
          root = p.root;
          registered = e;
          passes = passes;
          provider = refl;
          leaf = rw p.cached refl;
          root_hash = p.latest;
          index_root = p.latest;
          verified = rw p.cached p.verified;
        }

    -- If no digest is the empty text: whatever was registered before, every candidate of an answer is a
    -- registered manifest that passes the intent's filters, and comes with a proof that leads from its
    -- leaf to the root that the answer names.
    pub resolve-IsBacked : All IsBacked (resolve engine version b query).candidates
    unfolding resolve
    resolve-IsBacked =
        list_from-All (λ c. Placed c.row) IsBacked list_one-IsBacked 0 _
          (slice_to-All (λ c. Placed c.row) (limit_of query.top_k) _
            (ranked_of-Placed _ (
              select_passing-All (λ row. (j : ℕ) × (get_elem? b.manifests j ≡ some row)) _
                b.manifests
                (All-at (λ row. (j : ℕ) × (get_elem? b.manifests j ≡ some row)) b.manifests
                  (λ j row e. (j, e))))))
