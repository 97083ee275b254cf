-- ===== src/Aql/Ranking.antt =====
-- What `resolveIntent` answers: who is returned, in which order and with which rank.
use oap_spec.Prelude.{
  ℕ, suc, ◌+◌, String, Bool, true, false, List, [], ◌∷◌, ◌≡◌, refl, ◌⊎◌, inl, inr, some, arith,
  ◌=s=◌, get_elem?, All, All-map, if◌then◌else◌, Option, none, ◌≢◌, Bool-cases, Option-cases,
}
use oap_spec.Json.{Json, undefined, num}
use oap_spec.Aql.{Host}
use oap_spec.Aql.Evaluate.{Evaluation, evaluate}
use oap_spec.Aql.Meaning.{meaning, evaluate-eq-meaning}
use oap_spec.Aql.Resolve.{
  Candidate, Intent, Decision, Outcome, accept, over_budget, below_quality_floor, reject, Accepted,
  Rejected, Response, set_ranks, slice_one, falls_short, any_short, declared, check_quality_floor,
  outcome_of, decision_of, place, decide_all, sort_key, insert_accepted, sort_accepted,
  resolve_intent,
}

-- How often an id stands in a list of results.
abbrev one_if : Bool → ℕ
one_if b = if b then 1 else 0

abbrev pub count_accepted : {N : Type 0} → String → List (Accepted N) → ℕ
count_accepted x [] = 0
count_accepted x (a ∷ as') = one_if (a.candidate_id =s= x) + count_accepted x as'

abbrev pub count_rejected : {N : Type 0} → String → List (Rejected N) → ℕ
count_rejected x [] = 0
count_rejected x (a ∷ as') = one_if (a.candidate_id =s= x) + count_rejected x as'

abbrev pub count_candidates : {N : Type 0} → String → List (Candidate N) → ℕ
count_candidates x [] = 0
count_candidates x (a ∷ as') = one_if (a.id =s= x) + count_candidates x as'

count-set_ranks :
    {N : Type 0} (x : String) (i : ℕ) (xs : List (Accepted N))
    → count_accepted x (set_ranks i xs) ≡ count_accepted x xs
unfolding set_ranks
count-set_ranks x i [] = refl
count-set_ranks x i (a ∷ xs) = omega (arith, count-set_ranks x (suc i) xs)

module _ {N : Type 0} (host : Host N) where
  count-insert :
      (x : String) (a : Accepted N) (bs : List (Accepted N))
      → count_accepted x (insert_accepted host a bs)
        ≡ one_if (a.candidate_id =s= x) + count_accepted x bs
  unfolding insert_accepted
  count-insert x a [] = refl
  count-insert x a (b ∷ bs) = ground (arith, count-insert x a bs)

  count-sort :
      (x : String) (bs : List (Accepted N))
      → count_accepted x (sort_accepted host bs) ≡ count_accepted x bs
  unfolding sort_accepted
  count-sort x [] = refl
  count-sort x (a ∷ bs) = omega (arith, count-insert x a (sort_accepted host bs), count-sort x bs)

  count-place :
      (x : String) (c : Candidate N) (d : Decision N) (r : Response N)
      → count_accepted x (place host c d r).candidates
          + count_rejected x (place host c d r).rejected
        ≡ one_if (c.id =s= x) + (count_accepted x r.candidates + count_rejected x r.rejected)
  unfolding place
  count-place x c d r = grind arith

  count-decide_all :
      (x : String) (intent : Intent N) (cs : List (Candidate N))
      → count_accepted x (decide_all host intent cs).candidates
          + count_rejected x (decide_all host intent cs).rejected
        ≡ count_candidates x cs
  unfolding decide_all
  count-decide_all x intent [] = refl
  count-decide_all x intent (c ∷ cs) = omega (
    arith,
    count-place x c (decision_of host intent c) (decide_all host intent cs),
    count-decide_all x intent cs,
  )

  -- Under every policy but `single_best` each candidate ends up in the response exactly once,
  -- returned or rejected: an id stands there as often as among the candidates.
  pub resolve_intent-partition :
      (intent : Intent N) (cs : List (Candidate N)) (x : String)
      → (intent.resolution_policy =s= "single_best") ≡ false
      → count_accepted x (resolve_intent host intent cs).candidates
          + count_rejected x (resolve_intent host intent cs).rejected
        ≡ count_candidates x cs
  unfolding resolve_intent
  resolve_intent-partition intent cs x h =
      let sorted = sort_accepted host (decide_all host intent cs).candidates in
      rw (h) (
        omega (
          arith,
          count-set_ranks x 0 sorted,
          count-sort x (decide_all host intent cs).candidates,
          count-decide_all x intent cs,
        ))

  -- A quality meets an entry of a floor: it has a value for its key, which is not undefined and, if both
  -- are numbers, not below the entry's.
  abbrev pub MeetsEntry : List (String × Json N) → String × Json N → Type 0
  MeetsEntry quality (key, required) =
      (v : Json N) × (declared key quality ≡ some v)
      × (v ≢ undefined)
      × ((r a : N) → required ≡ num r → v ≡ num a → host.num_lt a r ≡ false)

  -- If there are a floor and a quality, the one meets every entry of the other.
  abbrev pub MeetsFloor : Option (List (String × Json N)) → Option (List (String × Json N)) → Type 0
  MeetsFloor (some floor) (some quality) = All (MeetsEntry quality) floor
  MeetsFloor (some floor) none = Unit
  MeetsFloor none quality = Unit

  falls_short-MeetsEntry :
      (quality : List (String × Json N)) (key : String) (required : Json N)
      → falls_short host required (declared key quality) ≡ false
      → MeetsEntry quality (key, required)
  unfolding falls_short
  falls_short-MeetsEntry quality key required h = elim (Option-cases (declared key quality)) [
    | inl e ↦ absurd (ground (arith, e, h))
    | inr (v, e) ↦ (v, e, (λ u. ground (arith, e, u, h)), (λ r a p q. ground (arith, e, p, q, h)))
  ]

  any_short-MeetsEntry :
      (floor quality : List (String × Json N))
      → any_short host floor quality ≡ false
      → All (MeetsEntry quality) floor
  unfolding any_short
  any_short-MeetsEntry [] quality h = tt
  any_short-MeetsEntry ((key, required) ∷ floor) quality h =
      elim (Bool-cases (falls_short host required (declared key quality))) [
        | inl s ↦ absurd (ground (arith, s, h))
        | inr s ↦ (
          falls_short-MeetsEntry quality key required s,
          any_short-MeetsEntry floor quality (ground (arith, s, h)),
        )
      ]

  check_quality_floor-MeetsFloor :
      (floor quality : Option (List (String × Json N)))
      → check_quality_floor host floor quality ≡ false
      → MeetsFloor floor quality
  unfolding check_quality_floor
  check_quality_floor-MeetsFloor (some floor) (some quality) h =
      any_short-MeetsEntry floor quality h
  check_quality_floor-MeetsFloor (some floor) none h = tt
  check_quality_floor-MeetsFloor none quality h = tt

  -- What a returned candidate comes from.
  abbrev pub Comes : Intent N → List (Candidate N) → Accepted N → Type 0
  Comes intent cs a =
      (c : Candidate N) × (n : ℕ) × (get_elem? cs n ≡ some c)
      × (a.candidate_id ≡ c.id)
      × (meaning host c.content intent.constraints ≡ true)
      × MeetsFloor intent.quality_floor c.quality

  passes :
      (intent : Intent N) (c : Candidate N)
      → ((outcome_of host intent c ≡ accept) ⊎ (outcome_of host intent c ≡ over_budget))
      → (meaning host c.content intent.constraints ≡ true)
        × MeetsFloor intent.quality_floor c.quality
  unfolding outcome_of
  passes intent c h =
      let (m, f) : (meaning host c.content intent.constraints ≡ true)
          × (check_quality_floor host intent.quality_floor c.quality ≡ false) =
        elim h [
          | inl e ↦ ground (arith, e, evaluate-eq-meaning host c.content intent.constraints)
          | inr e ↦ ground (arith, e, evaluate-eq-meaning host c.content intent.constraints)
        ] in
      (m, check_quality_floor-MeetsFloor intent.quality_floor c.quality f)

  later :
      (intent : Intent N) (c : Candidate N) (cs : List (Candidate N)) (a : Accepted N)
      → Comes intent cs a
      → Comes intent (c ∷ cs) a
  later intent c cs a (d, n, at, same, true', floor) = (d, suc n, at, same, true', floor)

  place-Comes :
      (intent : Intent N) (c : Candidate N) (cs : List (Candidate N)) (r : Response N) (o : Outcome)
      (es : List (Evaluation N))
      → ((o ≡ accept) ⊎ (o ≡ over_budget)
          → (meaning host c.content intent.constraints ≡ true)
            × MeetsFloor intent.quality_floor c.quality)
      → All (Comes intent (c ∷ cs)) r.candidates
      → All
          (Comes intent (c ∷ cs))
          (place host c (record { outcome = o; constraint_evaluations = es }) r).candidates
  unfolding place
  place-Comes intent c cs r accept es ok rest =
      let (m, f) = ok (inl refl) in ((c, 0, refl, refl, m, f), rest)
  place-Comes intent c cs r over_budget es ok rest =
      let (m, f) = ok (inr refl) in ((c, 0, refl, refl, m, f), rest)
  place-Comes intent c cs r below_quality_floor es ok rest = rest
  place-Comes intent c cs r reject es ok rest = rest

  decide_all-Comes :
      (intent : Intent N) (cs : List (Candidate N))
      → All (Comes intent cs) (decide_all host intent cs).candidates
  unfolding decide_all decision_of
  decide_all-Comes intent [] = tt
  decide_all-Comes intent (c ∷ cs) =
      let r = decide_all host intent cs in
      place-Comes intent c cs r (outcome_of host intent c)
        (evaluate host intent.constraints c.content).1 (passes intent c)
        (All-map (later intent c cs) r.candidates (decide_all-Comes intent cs))

  -- A property of all that are accepted is kept by sorting, cutting and ranking.
  module _ (P : Accepted N → Type 0) where
    pub All-insert :
        (a : Accepted N) (bs : List (Accepted N))
        → P a
        → All P bs
        → All P (insert_accepted host a bs)
    unfolding insert_accepted
    All-insert a [] p h = (p, tt)
    All-insert a (b ∷ bs) p h =
        elim (host.num_lt (sort_key host a) (sort_key host b))
          as (λ t. All P (if t then b ∷ insert_accepted host a bs else a ∷ b ∷ bs)) [
            | true ↦ (h.0, All-insert a bs p h.1)
            | false ↦ (p, h)
          ]

    pub All-sort : (bs : List (Accepted N)) → All P bs → All P (sort_accepted host bs)
    unfolding sort_accepted
    All-sort [] h = tt
    All-sort (b ∷ bs) h = All-insert b (sort_accepted host bs) h.0 (All-sort bs h.1)

    pub All-slice_one :
        (b : Bool) (bs : List (Accepted N)) → All P bs → All P (if b then slice_one bs else bs)
    unfolding slice_one
    All-slice_one true [] h = tt
    All-slice_one true (x ∷ bs) h = (h.0, tt)
    All-slice_one false bs h = h

    pub All-set_ranks :
        ((a : Accepted N) (i : ℕ) → P a → P (record a { rank = i }))
        → (i : ℕ) (bs : List (Accepted N)) → All P bs
        → All P (set_ranks i bs)
    unfolding set_ranks
    All-set_ranks f i [] h = tt
    All-set_ranks f i (b ∷ bs) h = (f b (suc i) h.0, All-set_ranks f (suc i) bs h.1)

  -- Every returned candidate is one of those handed in, its record makes the constraint tree true and,
  -- if it declares a quality and the intent a floor, it declares each key of the floor with a value that
  -- is not undefined and, where both values are numbers, not below the floor's.
  pub resolve_intent-Comes :
      (intent : Intent N) (cs : List (Candidate N))
      → All (Comes intent cs) (resolve_intent host intent cs).candidates
  unfolding resolve_intent
  resolve_intent-Comes intent cs =
      let P = Comes intent cs in
      let decided = (decide_all host intent cs).candidates in
      let single = intent.resolution_policy =s= "single_best" in
      let sorted = sort_accepted host decided in
      All-set_ranks P (λ a i h. h) 0 (if single then slice_one sorted else sorted)
        (All-slice_one P single sorted (All-sort P decided (decide_all-Comes intent cs)))
