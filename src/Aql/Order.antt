-- ===== src/Aql/Order.antt =====
-- The order and the ranks in which `resolveIntent` returns the candidates (reference/aql/src/index.js).
use oap_spec.Prelude.{
  ℕ, suc, String, Bool, true, false, List, [], ◌∷◌, ◌≡◌, refl, ◌=s=◌, inl, inr, Bool-cases, All,
  All-map, if◌then◌else◌,
}
use oap_spec.Aql.{Host}
use oap_spec.Aql.Resolve.{
  Candidate, Intent, Accepted, set_ranks, slice_one, decide_all, decision_of, outcome_of, sort_key,
  insert_accepted, sort_accepted, resolve_intent,
}
use oap_spec.Aql.Ranking.{All-insert, All-set_ranks}

abbrev pub RankedFrom : {N : Type 0} → ℕ → List (Accepted N) → Type 0
RankedFrom i [] = Unit
RankedFrom i (a ∷ rest) = (a.rank ≡ suc i) × RankedFrom (suc i) rest

RankedFrom-set_ranks : {N : Type 0} (i : ℕ) (xs : List (Accepted N)) → RankedFrom i (set_ranks i xs)
unfolding set_ranks
RankedFrom-set_ranks i [] = tt
RankedFrom-set_ranks i (x ∷ xs) = (refl, RankedFrom-set_ranks (suc i) xs)

module _ {N : Type 0} (host : Host N) where
  -- `a` scores no less than `b`.
  abbrev pub NoLess : Accepted N → Accepted N → Type 0
  NoLess a b = host.num_lt (sort_key host a) (sort_key host b) ≡ false

  abbrev pub Descending : List (Accepted N) → Type 0
  Descending [] = Unit
  Descending (a ∷ bs) = All (NoLess a) bs × Descending bs

  module _
      (asym : (a b : Accepted N)
        → host.num_lt (sort_key host a) (sort_key host b) ≡ true
        → NoLess b a)
      (trans : (a b c : Accepted N) → NoLess a b → NoLess b c → NoLess a c) where
    insert-Descending :
        (a : Accepted N) (bs : List (Accepted N))
        → Descending bs
        → Descending (insert_accepted host a bs)
    unfolding insert_accepted
    insert-Descending a [] h = (tt, tt)
    insert-Descending a (b ∷ bs) h =
        elim (Bool-cases (host.num_lt (sort_key host a) (sort_key host b))) [
          | inl e ↦
              rw (e) (All-insert host (NoLess b) a bs (asym a b e) h.0, insert-Descending a bs h.1)
          | inr e ↦ rw (e) ((e, All-map (λ x p. trans a b x e p) bs h.0), h)
        ]

    sort-Descending : (bs : List (Accepted N)) → Descending (sort_accepted host bs)
    unfolding sort_accepted
    sort-Descending [] = tt
    sort-Descending (b ∷ bs) = insert-Descending b (sort_accepted host bs) (sort-Descending bs)

    Descending-set_ranks :
        (i : ℕ) (bs : List (Accepted N)) → Descending bs → Descending (set_ranks i bs)
    unfolding set_ranks
    Descending-set_ranks i [] h = tt
    Descending-set_ranks i (b ∷ bs) h = (
      All-set_ranks host (NoLess b) (λ a j p. p) (suc i) bs h.0,
      Descending-set_ranks (suc i) bs h.1,
    )

    Descending-slice_one :
        (b : Bool) (bs : List (Accepted N))
        → Descending bs
        → Descending (if b then slice_one bs else bs)
    unfolding slice_one
    Descending-slice_one true [] h = tt
    Descending-slice_one true (x ∷ bs) h = (tt, tt)
    Descending-slice_one false bs h = h

    -- Where the scores are ordered: the candidates of a response stand from the highest score down,
    -- each scoring no less than all that follow it, and their ranks are 1, 2, 3 and so on.
    pub resolve_intent-Descending :
        (intent : Intent N) (cs : List (Candidate N))
        → Descending (resolve_intent host intent cs).candidates
          × RankedFrom 0 (resolve_intent host intent cs).candidates
    unfolding resolve_intent
    resolve_intent-Descending intent cs =
        let sorted = sort_accepted host (decide_all host intent cs).candidates in
        let single = intent.resolution_policy =s= "single_best" in
        (
          Descending-set_ranks 0 (if single then slice_one sorted else sorted) (
              Descending-slice_one single sorted
                (sort-Descending (decide_all host intent cs).candidates)),
          RankedFrom-set_ranks 0 (if single then slice_one sorted else sorted),
        )

  slice_one-set_ranks :
      (xs : List (Accepted N)) → set_ranks 0 (slice_one xs) ≡ slice_one (set_ranks 0 xs)
  unfolding set_ranks slice_one
  slice_one-set_ranks [] = refl
  slice_one-set_ranks (x ∷ xs) = refl

  decide_all-policy :
      (intent : Intent N) (policy : String) (cs : List (Candidate N))
      → decide_all host (record intent { resolution_policy = policy }) cs
        ≡ decide_all host intent cs
  unfolding decide_all decision_of outcome_of
  decide_all-policy intent policy [] = refl
  decide_all-policy intent policy (c ∷ cs) = rw (decide_all-policy intent policy cs)

  -- `single_best` answers with the first of what `ranked_set` answers, with rank 1, and rejects the
  -- same candidates.
  pub resolve_intent-single_best :
      (intent : Intent N) (cs : List (Candidate N))
      → ((resolve_intent host (record intent { resolution_policy = "single_best" }) cs).candidates
          ≡ slice_one
              (resolve_intent host
                (record intent { resolution_policy = "ranked_set" })
                cs).candidates)
        × ((resolve_intent host (record intent { resolution_policy = "single_best" }) cs).rejected
            ≡ (resolve_intent host
                (record intent { resolution_policy = "ranked_set" })
                cs).rejected)
  unfolding resolve_intent
  resolve_intent-single_best intent cs =
      let d = decide_all host intent cs in
      rw (decide_all-policy intent "single_best" cs, decide_all-policy intent "ranked_set" cs)
        (slice_one-set_ranks (sort_accepted host d.candidates), refl)
