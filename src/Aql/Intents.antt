-- ===== src/Aql/Intents.antt =====
-- Which intents the parser accepts (reference/aql/src/parser.js).
use mathlib.Core.Path.{subst}
use oap_spec.Prelude.{
  append-nil, nil-append, ℕ, ◌<◌, Bool, true, false, not, ◌&&◌, Option, none, some, List, [], ◌∷◌,
  ◌++◌, map, ◌≡◌, ◌↔◌, ◌⊎◌, inl, inr, refl, ap, ◌∙◌, arith, ◌=s=◌, is_some, length, if◌then◌else◌,
  Bool-cases, Option-cases, List-cases,
}
use oap_spec.Json.{Json}
use oap_spec.Aql.Parser.{
  Budget, Intent, IntentError, tree_error, needs_top_k, when, check_distribution, Runtime,
  check_budget, is_after, intent_errors, parse_intent,
}
use oap_spec.Aql.Trees.{IsTree}
use oap_spec.Aql.Grammar.{validate_constraint_tree_iff}

map-nil : {A B : Type 0} (f : A → B) (xs : List A) → map f xs ≡ [] ↔ xs ≡ []
map-nil f [] = (λ h. refl, λ h. refl)
map-nil f (x ∷ xs) = (λ h. cc, λ h. cc)

not-false : {b : Bool} → not b ≡ false → b ≡ true
not-false h = ground arith

when-nil : (b : Bool) (e : IntentError) → when b e ≡ [] ↔ b ≡ false
when-nil b e = (λ h. ground (arith, h), λ h. ground (arith, h))

module _ {N : Type 0} (runtime : Runtime N) where
  -- A budget that ranks the first candidates says how many, and a distribution has that many parts
  -- that sum to one.
  abbrev pub BudgetFits : Option (Budget N) → Type 0
  BudgetFits none = Unit
  BudgetFits (some b) =
      ((b.allocation =s= "ranked_top_k") ≡ false)
      ⊎ ((k : N) × (b.top_k ≡ some k)
          × ((b.distribution ≡ none)
              ⊎ ((ns : List N) × (b.distribution ≡ some ns)
                  × (runtime.sums_to_one ns ≡ true)
                  × (runtime.num_eq (runtime.of_nat (length ns)) k ≡ true))))

  pub record IsAdmissible (intent : Intent N) : Type 0 where
    pub tree : IsTree intent.constraints
    pub budget : BudgetFits intent.budget
    pub rate :
        ((intent.category =s= "subscription") && not (is_some intent.max_event_rate_per_minute))
        ≡ false
    pub from : ℕ
    pub to : ℕ
    pub from_date : runtime.date intent.from ≡ some from
    pub to_date : runtime.date intent.to ≡ some to
    pub order : from < to

  abbrev Fits : Bool → Option N → Option (List N) → Type 0
  Fits a k d =
      (a ≡ false)
      ⊎ ((n : N) × (k ≡ some n)
          × ((d ≡ none)
              ⊎ ((ns : List N) × (d ≡ some ns)
                  × (runtime.sums_to_one ns ≡ true)
                  × (runtime.num_eq (runtime.of_nat (length ns)) n ≡ true))))

  Fits-parts :
      (n : N) (ns : List N)
      → Fits true (some n) (some ns)
      → (runtime.sums_to_one ns ≡ true) × (runtime.num_eq (runtime.of_nat (length ns)) n ≡ true)
  Fits-parts n ns h = elim h [
    | inl e ↦ cc e
    | inr (m, e, d) ↦ elim d [ inl z ↦ cc z | inr (ms, q, s, r) ↦ (cc (s, q), cc (e, q, r)) ]
  ]

  distribution_iff :
      (a : Bool) (k : Option N) (d : Option (List N))
      → (if a then when (not (is_some k)) needs_top_k ++ check_distribution runtime d k else [])
          ≡ []
        ↔ Fits a k d
  distribution_iff false k d = (λ h. inl refl, λ h. refl)
  distribution_iff true none d = (λ h. cc, λ h. elim h [ inl e ↦ cc e | inr (n, e, _) ↦ cc e ])
  distribution_iff true (some n) none = (λ h. inr (n, refl, inl refl), λ h. refl)
  distribution_iff true (some n) (some ns) = elim (Bool-cases (runtime.sums_to_one ns)) [
    | inr s ↦ (λ h. ground (arith, s, h), λ h. cc (s, (Fits-parts n ns h).0))
    | inl s ↦ elim (Bool-cases (runtime.num_eq (runtime.of_nat (length ns)) n)) [
      | inr e ↦ (λ h. ground (arith, s, e, h), λ h. cc (e, (Fits-parts n ns h).1))
      | inl e ↦ (λ h. inr (n, refl, inr (ns, refl, s, e)), λ h. ground (arith, s, e))
    ]
  ]

  check_budget_iff : (b : Option (Budget N)) → check_budget runtime b ≡ [] ↔ BudgetFits b
  unfolding check_budget
  check_budget_iff none = (λ h. tt, λ h. refl)
  check_budget_iff (some b) =
      distribution_iff (b.allocation =s= "ranked_top_k") b.top_k b.distribution

  is_after-some :
      (to from : Option ℕ)
      → is_after runtime to from ≡ true
      → (t : ℕ) × (f : ℕ) × (to ≡ some t) × (from ≡ some f) × (f < t)
  unfolding is_after
  is_after-some (some t) (some f) h = (t, f, refl, refl, ground (arith, h))
  is_after-some none from h = cc
  is_after-some (some t) none h = cc

  intent_errors_iff : (intent : Intent N) → intent_errors runtime intent ≡ [] ↔ IsAdmissible intent
  unfolding intent_errors is_after
  intent_errors_iff intent =
      let trees = validate_constraint_tree_iff runtime.show intent.constraints "/constraints" in
      let budgets = check_budget_iff intent.budget in
      (
        λ h.
            let (t, rest) = append-nil _ _ h in
            let (b, rest') = append-nil _ _ rest in
            let (r, d) = append-nil _ _ rest' in
            let (to, from, p, q, o) =
              is_after-some (runtime.date intent.to) (runtime.date intent.from)
                (not-false ((when-nil _ _).0 d)) in
            record {
              tree = trees.0 ((map-nil tree_error _).0 t);
              budget = budgets.0 b;
              rate = (when-nil _ _).0 r;
              from = from;
              to = to;
              from_date = q;
              to_date = p;
              order = o;
            },
        λ h. nil-append _ _ ((map-nil tree_error _).1 (trees.1 h.tree)) (
            nil-append _ _ (budgets.1 h.budget) (
              nil-append _ _ ((when-nil _ _).1 h.rate)
                ((when-nil _ _).1 (ground (arith, h.from_date, h.to_date, h.order))))),
      )

  -- An intent is accepted exactly if it fits the schema, its constraints are a tree, its budget fits, a
  -- subscription has a rate, and its validity begins before it ends.
  pub parse_intent_iff :
      (v : Json N) (intent : Intent N)
      → parse_intent runtime v ≡ ([], some intent)
        ↔ (runtime.read v ≡ some intent) × IsAdmissible intent
  unfolding parse_intent
  parse_intent_iff v intent =
      let all = intent_errors_iff intent in
      (
        λ h. elim (Option-cases (runtime.read v)) [
          | inl r ↦ ground (arith, r, h)
          | inr (i, r) ↦ elim (List-cases (intent_errors runtime i)) [
            | inr (e, es, n) ↦ ground (arith, r, n, h)
            | inl n ↦
                let p : i ≡ intent = ground (arith, r, n, h) in
                (r ∙ ap some p, subst IsAdmissible p ((intent_errors_iff i).0 n))
          ]
        ],
        λ h. ground (arith, h.0, all.1 h.1),
      )
