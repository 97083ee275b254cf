-- ===== src/Aql/Trees.antt =====
-- The grammar of constraint trees, and what a tree is made of (reference/aql/src/parser.js).
use mathlib.Core.Path.{subst}
use oap_spec.Prelude.{
  String, true, none, some, [], ◌≡◌, inl, inr, refl, arith, lookup, Option-cases,
}
use oap_spec.Json.{Json, arr, obj, Items, nil, cons, Fields, entries}
use oap_spec.Aql.Parser.{is_operator, check_leaf}

-- The grammar of constraint trees: of the keys all_of, any_of and not, the first that is there decides.
mutual
  pub data IsTree {N : Type 0} : Json N → Type 0 where
    all_of :
        (fs : Fields N) (v : Json N) (vs : Items N)
        → lookup "all_of" (entries fs) ≡ some (arr (cons v vs))
        → AreTrees (cons v vs)
        → IsTree (obj fs)
    any_of :
        (fs : Fields N) (v : Json N) (vs : Items N)
        → lookup "all_of" (entries fs) ≡ none
        → lookup "any_of" (entries fs) ≡ some (arr (cons v vs))
        → AreTrees (cons v vs)
        → IsTree (obj fs)
    negation :
        (fs : Fields N) (v : Json N)
        → lookup "all_of" (entries fs) ≡ none
        → lookup "any_of" (entries fs) ≡ none
        → lookup "not" (entries fs) ≡ some v
        → IsTree v
        → IsTree (obj fs)
    leaf :
        (fs : Fields N) (path operator value : Json N)
        → lookup "all_of" (entries fs) ≡ none
        → lookup "any_of" (entries fs) ≡ none
        → lookup "not" (entries fs) ≡ none
        → lookup "path" (entries fs) ≡ some path
        → lookup "operator" (entries fs) ≡ some operator
        → lookup "value" (entries fs) ≡ some value
        → is_operator operator ≡ true
        → IsTree (obj fs)

  pub data AreTrees {N : Type 0} : Items N → Type 0 where
    none_left : AreTrees nil
    also : (v : Json N) (vs : Items N) → IsTree v → AreTrees vs → AreTrees (cons v vs)

abbrev pub items_of : {N : Type 0} → Json N → Items N
items_of (arr vs) = vs
items_of v = nil

module _ {N : Type 0} where
  -- A value under `all_of` or `any_of` that is a list of trees, and not empty.
  abbrev pub IsListOfTrees : Json N → Type 0
  IsListOfTrees w = (v : Json N) × (vs : Items N) × (w ≡ arr (cons v vs)) × AreTrees (cons v vs)

  pub all_of-inv :
      (fs : Fields N) (w : Json N)
      → lookup "all_of" (entries fs) ≡ some w
      → IsTree (obj fs)
      → IsListOfTrees w
  all_of-inv _ w e (all_of fs v vs e0 ts) = (v, vs, cc (e, e0), ts)
  all_of-inv _ w e (any_of fs v vs e0 e1 ts) = cc (e, e0)
  all_of-inv _ w e (negation fs v e0 e1 e2 t) = cc (e, e0)
  all_of-inv _ w e (leaf fs x y z e0 e1 e2 e3 e4 e5 o) = cc (e, e0)

  pub any_of-inv :
      (fs : Fields N) (w : Json N)
      → lookup "all_of" (entries fs) ≡ none
      → lookup "any_of" (entries fs) ≡ some w
      → IsTree (obj fs)
      → IsListOfTrees w
  any_of-inv _ w n e (all_of fs v vs e0 ts) = cc (n, e0)
  any_of-inv _ w n e (any_of fs v vs e0 e1 ts) = (v, vs, cc (e, e1), ts)
  any_of-inv _ w n e (negation fs v e0 e1 e2 t) = cc (e, e1)
  any_of-inv _ w n e (leaf fs x y z e0 e1 e2 e3 e4 e5 o) = cc (e, e1)

  pub not-inv :
      (fs : Fields N) (w : Json N)
      → lookup "all_of" (entries fs) ≡ none
      → lookup "any_of" (entries fs) ≡ none
      → lookup "not" (entries fs) ≡ some w
      → IsTree (obj fs)
      → IsTree w
  not-inv _ w n m e (all_of fs v vs e0 ts) = cc (n, e0)
  not-inv _ w n m e (any_of fs v vs e0 e1 ts) = cc (m, e1)
  not-inv _ w n m e (negation fs v e0 e1 e2 t) = subst IsTree (cc (e, e2)) t
  not-inv _ w n m e (leaf fs x y z e0 e1 e2 e3 e4 e5 o) = cc (e, e2)

  pub check_leaf-inv :
      (fs : Fields N) (p : String)
      → lookup "all_of" (entries fs) ≡ none
      → lookup "any_of" (entries fs) ≡ none
      → lookup "not" (entries fs) ≡ none
      → IsTree (obj fs)
      → check_leaf (entries fs) p ≡ []
  unfolding check_leaf
  check_leaf-inv _ p n m l (all_of fs v vs e0 ts) = cc (n, e0)
  check_leaf-inv _ p n m l (any_of fs v vs e0 e1 ts) = cc (m, e1)
  check_leaf-inv _ p n m l (negation fs v e0 e1 e2 t) = cc (l, e2)
  check_leaf-inv _ p n m l (leaf fs x y z e0 e1 e2 e3 e4 e5 o) = ground (arith, e3, e4, e5, o)

  pub check_leaf-IsTree :
      (fs : Fields N) (p : String)
      → lookup "all_of" (entries fs) ≡ none
      → lookup "any_of" (entries fs) ≡ none
      → lookup "not" (entries fs) ≡ none
      → check_leaf (entries fs) p ≡ []
      → IsTree (obj fs)
  unfolding check_leaf
  check_leaf-IsTree fs p a b n h = elim (Option-cases (lookup "operator" (entries fs))) [
    | inl o ↦ absurd (ground (arith, o, h))
    | inr (operator, o) ↦ elim (Option-cases (lookup "path" (entries fs))) [
      | inl x ↦ absurd (ground (arith, o, x, h))
      | inr (path, x) ↦ elim (Option-cases (lookup "value" (entries fs))) [
        | inl y ↦ absurd (ground (arith, o, x, y, h))
        | inr (value, y) ↦ leaf fs path operator value a b n x o y (ground (arith, o, x, y, h))
      ]
    ]
  ]

  pub IsTree-obj : (v : Json N) → IsTree v → (fs : Fields N) × (v ≡ obj fs)
  IsTree-obj _ (all_of fs v vs e0 ts) = (fs, refl)
  IsTree-obj _ (any_of fs v vs e0 e1 ts) = (fs, refl)
  IsTree-obj _ (negation fs v e0 e1 e2 t) = (fs, refl)
  IsTree-obj _ (leaf fs x y z e0 e1 e2 e3 e4 e5 o) = (fs, refl)

  pub AreTrees-cons : (v : Json N) (vs : Items N) → AreTrees (cons v vs) → IsTree v × AreTrees vs
  AreTrees-cons _ _ (also v vs t ts) = (t, ts)
