-- ===== src/Aql/Walking.antt =====
-- What `walk` finds (reference/aql/src/projection.js).
use mathlib.Core.List.{append_assoc, append-nil}
use oap_spec.Prelude.{
  ℕ, ◌+◌, String, Option, List, [], ◌∷◌, ◌++◌, ◌≡◌, ◌≢◌, inl, inr, refl, sym, ap, ◌∙◌, arith, ◌=s=◌,
  eq_iff, if◌then◌else◌, lookup, get_elem?, All, All-map, Bool-cases, Option-cases,
}
use oap_spec.Json.{Json, undefined, null, bool, num, str, arr, obj, Items, items, Fields, entries}
use oap_spec.Aql.Leaf.{is_empty}
use oap_spec.Aql.Projection.{Matches, done, one, any_number}
use oap_spec.Aql.Collect.{Found, Walk, each, descend, child, walk, is_nullish}
use oap_spec.Aql.Found.{
  lookup-HasEntry, At, here, item, entry, FoundAt, ItemOf, FieldOf, each_item-All, each_field-All,
}
use oap_spec.Aql.Descent.{Deep, descend-All, Deep-FoundAt}

module _ {N : Type 0} (show : ℕ → String) (to_index : String → Option ℕ) where
  after_item :
      (q : String) (rest : List String) (xs : Items N) (path : List String) (g : Found N)
      → q ≡ "*"
      → (q ≢ "**")
      → ItemOf show to_index (FoundAt show to_index rest) xs 0 path g
      → FoundAt show to_index (q ∷ rest) (arr xs) path g
  after_item q rest xs path g star ne (j, v, at, (p, e, m, a)) =
      let same : 0 + j ≡ j = omega arith in
      (
        show j ∷ p,
        e ∙ append_assoc path (show (0 + j) ∷ []) p ∙ ap (λ i. path ++ show i ∷ p) same,
        one q (show j) rest p ne (inl star) m,
        item xs j (show j) v p g.1 at (inl refl) a,
      )

  after_field :
      (q : String) (rest : List String) (fs : Fields N) (path : List String) (g : Found N)
      → q ≡ "*"
      → (q ≢ "**")
      → FieldOf show to_index (FoundAt show to_index rest) fs path g
      → FoundAt show to_index (q ∷ rest) (obj fs) path g
  after_field q rest fs path g star ne (k, v, at, (p, e, m, a)) = (
    k ∷ p,
    e ∙ append_assoc path (k ∷ []) p,
    one q k rest p ne (inl star) m,
    entry fs k v p g.1 at a,
  )

  each-All :
      (q : String) (rest : List String) (f : Walk N)
      → q ≡ "*"
      → (q ≢ "**")
      → ((v : Json N) (path : List String) → All (FoundAt show to_index rest v path) (f v path))
      → (node : Json N) (path : List String)
      → All (FoundAt show to_index (q ∷ rest) node path) (each show to_index f node path)
  unfolding each
  each-All q rest f star ne sound (arr xs) path =
      All-map (λ g. after_item q rest xs path g star ne) _
        (each_item-All show to_index (FoundAt show to_index rest) f sound xs 0 path)
  each-All q rest f star ne sound (obj fs) path =
      All-map (λ g. after_field q rest fs path g star ne) _
        (each_field-All show to_index (FoundAt show to_index rest) f sound fs path)
  each-All q rest f star ne sound undefined path = tt
  each-All q rest f star ne sound null path = tt
  each-All q rest f star ne sound (bool b) path = tt
  each-All q rest f star ne sound (num n) path = tt
  each-All q rest f star ne sound (str s) path = tt

  named :
      (q : String) (rest : List String) (node w : Json N) (path : List String) (g : Found N)
      → q ≢ "**"
      → ((p : List String) → At show to_index w p g.1 → At show to_index node (q ∷ p) g.1)
      → FoundAt show to_index rest w (path ++ q ∷ []) g
      → FoundAt show to_index (q ∷ rest) node path g
  named q rest node w path g ne step (p, e, m, a) =
      (q ∷ p, e ∙ append_assoc path (q ∷ []) p, one q q rest p ne (inr refl) m, step p a)

  child-All :
      (q : String) (rest : List String) (f : Walk N)
      → (q ≢ "**")
      → ((v : Json N) (path : List String) → All (FoundAt show to_index rest v path) (f v path))
      → (node : Json N) (path : List String)
      → All (FoundAt show to_index (q ∷ rest) node path) (child show to_index f q node path)
  unfolding child
  child-All q rest f ne sound (arr xs) path = elim (Option-cases (to_index q)) [
    | inl none_at ↦ rw (none_at, child) tt
    | inr (i, index) ↦ elim (Option-cases (get_elem? (items xs) i)) [
      | inl out ↦ rw (index, child) (rw out tt)
      | inr (w, at) ↦
          rw (index, child)
            (rw at (
              All-map
                (λ g.
                  named q rest (arr xs) w path g ne (λ p a. item xs i q w p g.1 at (inr index) a))
                _ (sound w (path ++ q ∷ []))))
    ]
  ]
  child-All q rest f ne sound (obj fs) path = elim (Option-cases (lookup q (entries fs))) [
    | inl missing ↦ rw (missing, child) tt
    | inr (w, at) ↦
        rw (at, child)
          (All-map
            (λ g.
              named q rest (obj fs) w path g ne
                (λ p a. entry fs q w p g.1 (lookup-HasEntry q w fs at) a))
            _ (sound w (path ++ q ∷ [])))
  ]
  child-All q rest f ne sound undefined path = tt
  child-All q rest f ne sound null path = tt
  child-All q rest f ne sound (bool b) path = tt
  child-All q rest f ne sound (num n) path = tt
  child-All q rest f ne sound (str s) path = tt

  any_depth :
      (rest : List String) (node : Json N) (path : List String) (g : Found N)
      → Deep show to_index (FoundAt show to_index rest) node path g
      → FoundAt show to_index ("**" ∷ rest) node path g
  any_depth rest node path g d =
      let (skipped, p, e, m, a) = Deep-FoundAt show to_index rest node path g d in
      (skipped ++ p, e, any_number skipped rest p (skipped ++ p) refl m, a)

  at_once :
      (segments : List String) (node : Json N) (path : List String)
      → Matches segments []
      → FoundAt show to_index segments node path (path, node)
  at_once segments node path m = ([], sym (append-nil path), m, here node)

  after_deep :
      (rest : List String) (node : Json N) (path : List String)
      → ((v : Json N) (path : List String)
          → All (FoundAt show to_index rest v path) (walk show to_index rest v path))
      → All (FoundAt show to_index ("**" ∷ rest) node path) (
          if is_empty rest
          then (path, node) ∷ []
          else descend show to_index (walk show to_index rest) node path)
  after_deep [] node path sound =
      (at_once ("**" ∷ []) node path (any_number [] [] [] [] refl done), tt)
  after_deep (r ∷ rest) node path sound = All-map (any_depth (r ∷ rest) node path) _ (
      descend-All show to_index (FoundAt show to_index (r ∷ rest)) (walk show to_index (r ∷ rest))
        sound node path)

  pub walk-All :
      (segments : List String) (node : Json N) (path : List String)
      → All (FoundAt show to_index segments node path) (walk show to_index segments node path)
  unfolding walk
  walk-All [] node path = (at_once [] node path done, tt)
  walk-All (q ∷ rest) node path = elim (Bool-cases (is_nullish show to_index node)) [
    | inl e ↦ rw e tt
    | inr e ↦ rw e (elim (Bool-cases (q =s= "*")) [
      | inl star ↦
          let is_star = (eq_iff q "*").0 star in
          rw star (
            each-All q rest (walk show to_index rest) is_star (λ d. cc (is_star, d)) (walk-All rest)
              node path)
      | inr not_star ↦ rw not_star (elim (Bool-cases (q =s= "**")) [
        | inr plain ↦ rw plain (
            child-All q rest (walk show to_index rest) (λ d. cc ((eq_iff q "**").1 d, plain))
              (walk-All rest) node path)
        | inl deep ↦
            rw deep (rw ((eq_iff q "**").0 deep) (after_deep rest node path (walk-All rest)))
      ])
    ])
  ]
