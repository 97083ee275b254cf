-- ===== src/Aql/Grammar.antt =====
-- Which values the parser takes for constraint trees (reference/aql/src/parser.js).
use mathlib.Core.Path.{subst}
use oap_spec.Prelude.{
  append-nil, nil-append, ℕ, suc, String, none, some, List, [], ◌≡◌, ◌↔◌, ◌⊎◌, inl, inr, refl, sym,
  ap, ◌∙◌, arith, ◌+s◌, ◌=s=◌, lookup, Bool-cases,
}
use oap_spec.Json.{
  Json, undefined, null, bool, num, str, arr, obj, Items, nil, cons, Fields, end, field, entries,
}
use oap_spec.Aql.Parser.{
  TreeError, validate_constraint_tree, check_list, check_items, under_list, under_not,
}
use oap_spec.Aql.Trees.{
  IsTree, all_of, any_of, negation, AreTrees, none_left, also, items_of, IsListOfTrees, all_of-inv,
  any_of-inv, not-inv, check_leaf-inv, check_leaf-IsTree, IsTree-obj, AreTrees-cons,
}

module _ {N : Type 0} (show : ℕ → String) where
  abbrev ListFact : Fields N → String → Type 0
  ListFact fs key =
      ((lookup key (entries fs) ≡ none) × ((p : String) → under_list show key fs p ≡ none))
      ⊎ ((w : Json N) × (lookup key (entries fs) ≡ some w)
          × ((p : String)
              → (errors : List TreeError) × (under_list show key fs p ≡ some errors)
                × (errors ≡ [] ↔ IsListOfTrees w)))

  abbrev NotFact : Fields N → Type 0
  NotFact fs =
      ((lookup "not" (entries fs) ≡ none) × ((p : String) → under_not show fs p ≡ none))
      ⊎ ((w : Json N) × (lookup "not" (entries fs) ≡ some w)
          × ((p : String)
              → (errors : List TreeError) × (under_not show fs p ≡ some errors)
                × (errors ≡ [] ↔ IsTree w)))

  obj_iff :
      (fs : Fields N)
      → ListFact fs "all_of"
      → ListFact fs "any_of"
      → NotFact fs
      → (p : String) → validate_constraint_tree show (obj fs) p ≡ [] ↔ IsTree (obj fs)
  unfolding validate_constraint_tree
  obj_iff fs (inr (w, e, f)) a n p =
      let (errors, u, iff) = f p in
      (
        λ h. let (v, vs, q, ts) = iff.0 (ground (arith, u, h)) in all_of fs v vs (e ∙ ap some q) ts,
        λ t. ground (arith, u, iff.1 (all_of-inv fs w e t)),
      )
  obj_iff fs (inl (e, f)) (inr (w, e', f')) n p =
      let (errors, u, iff) = f' p in
      (
        λ h.
            let (v, vs, q, ts) = iff.0 (ground (arith, f p, u, h)) in
            any_of fs v vs e (e' ∙ ap some q) ts,
        λ t. ground (arith, f p, u, iff.1 (any_of-inv fs w e e' t)),
      )
  obj_iff fs (inl (e, f)) (inl (e', f')) (inr (w, e'', f'')) p =
      let (errors, u, iff) = f'' p in
      (
        λ h. negation fs w e e' e'' (iff.0 (ground (arith, f p, f' p, u, h))),
        λ t. ground (arith, f p, f' p, u, iff.1 (not-inv fs w e e' e'' t)),
      )
  obj_iff fs (inl (e, f)) (inl (e', f')) (inl (e'', f'')) p = (
    λ h. check_leaf-IsTree fs p e e' e'' (ground (arith, f p, f' p, f'' p, h)),
    λ t. ground (arith, f p, f' p, f'' p, check_leaf-inv fs p e e' e'' t),
  )

  mutual
    unfolding validate_constraint_tree check_list check_items under_list under_not

    valid_iff : (v : Json N) (p : String) → validate_constraint_tree show v p ≡ [] ↔ IsTree v
    valid_iff (obj fs) p =
        obj_iff fs (list_fact fs "all_of") (list_fact fs "any_of") (not_fact fs) p
    valid_iff (arr vs) p = (λ h. cc, λ t. cc (IsTree-obj (arr vs) t).1)
    valid_iff undefined p = (λ h. cc, λ t. cc (IsTree-obj undefined t).1)
    valid_iff null p = (λ h. cc, λ t. cc (IsTree-obj null t).1)
    valid_iff (bool b) p = (λ h. cc, λ t. cc (IsTree-obj (bool b) t).1)
    valid_iff (num n) p = (λ h. cc, λ t. cc (IsTree-obj (num n) t).1)
    valid_iff (str s) p = (λ h. cc, λ t. cc (IsTree-obj (str s) t).1)

    list_iff : (w : Json N) (p : String) → check_list show w p ≡ [] ↔ IsListOfTrees w
    list_iff (arr nil) p = (λ h. cc, λ l. cc l.2)
    list_iff (arr (cons v vs)) p =
        let ih = items_iff (cons v vs) 0 p in
        (λ h. (v, vs, refl, ih.0 h), λ l. ih.1 (subst AreTrees (sym (ap items_of l.2)) l.3))
    list_iff (obj fs) p = (λ h. cc, λ l. cc l.2)
    list_iff undefined p = (λ h. cc, λ l. cc l.2)
    list_iff null p = (λ h. cc, λ l. cc l.2)
    list_iff (bool b) p = (λ h. cc, λ l. cc l.2)
    list_iff (num n) p = (λ h. cc, λ l. cc l.2)
    list_iff (str s) p = (λ h. cc, λ l. cc l.2)

    items_iff : (vs : Items N) (i : ℕ) (p : String) → check_items show vs i p ≡ [] ↔ AreTrees vs
    items_iff nil i p = (λ h. none_left, λ t. refl)
    items_iff (cons v vs) i p =
        let one = valid_iff v (p +s "/" +s show i) in
        let rest = items_iff vs (suc i) p in
        (
          λ h. let (a, b) = append-nil _ _ h in also v vs (one.0 a) (rest.0 b),
          λ t. let (a, b) = AreTrees-cons v vs t in nil-append _ _ (one.1 a) (rest.1 b),
        )

    list_fact : (fs : Fields N) (key : String) → ListFact fs key
    list_fact end key = inl (refl, λ p. refl)
    list_fact (field k v fs) key = elim (Bool-cases (k =s= key)) [
      | inl e ↦ inr (
        v,
        ground (arith, e),
        λ p. (check_list show v (p +s "/" +s key), ground (arith, e), list_iff v (p +s "/" +s key)),
      )
      | inr e ↦ elim (list_fact fs key) [
        | inl (a, b) ↦ inl (ground (arith, e, a), λ p. ground (arith, e, b p))
        | inr (w, q, f) ↦ inr (
          w,
          ground (arith, e, q),
          λ p. let (errors, u, iff) = f p in (errors, ground (arith, e, u), iff),
        )
      ]
    ]

    not_fact : (fs : Fields N) → NotFact fs
    not_fact end = inl (refl, λ p. refl)
    not_fact (field k v fs) = elim (Bool-cases (k =s= "not")) [
      | inl e ↦ inr (
        v,
        ground (arith, e),
        λ p. (
          validate_constraint_tree show v (p +s "/not"),
          ground (arith, e),
          valid_iff v (p +s "/not"),
        ),
      )
      | inr e ↦ elim (not_fact fs) [
        | inl (a, b) ↦ inl (ground (arith, e, a), λ p. ground (arith, e, b p))
        | inr (w, q, f) ↦ inr (
          w,
          ground (arith, e, q),
          λ p. let (errors, u, iff) = f p in (errors, ground (arith, e, u), iff),
        )
      ]
    ]

  -- The parser finds no error in a value, at any pointer, exactly if the value is a constraint tree.
  pub validate_constraint_tree_iff :
      (v : Json N) (p : String) → validate_constraint_tree show v p ≡ [] ↔ IsTree v
  validate_constraint_tree_iff v p = valid_iff v p
