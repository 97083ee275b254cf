-- ===== src/Predicate/Laws.antt =====
-- What the predicates guarantee, and what they do not.
use oap_spec.Prelude.{
  String, true, false, none, some, List, [], ◌∷◌, ◌≡◌, refl, arith, Option-cases, Bool-cases, inl,
  inr,
}
use oap_spec.Json.{Json, undefined}
use oap_spec.Predicate.{
  Runtime, value, is_known, apply_predicate, apply_arguments, evaluate_predicate, resolve_path,
}
use oap_spec.Predicate.Text.{match_call, split_args}

module _ {N : Type 0} (rt : Runtime N) where
  apply_predicate-unknown :
      (fn a b : String) (context : Json N)
      → is_known rt fn ≡ false
      → apply_predicate rt fn a b context ≡ some false
  unfolding apply_predicate
  apply_predicate-unknown fn a b context h = ground arith

  -- A call that the vocabulary admits, with its two arguments.
  pub record IsCall (predicate : String) : Type 0 where
    pub fn : String
    pub rest : String
    pub first : String
    pub second : String
    pub others : List String
    pub matched : match_call predicate ≡ some (fn, rest)
    pub arguments : split_args rt.trim rest ≡ first ∷ second ∷ others
    pub known : is_known rt fn ≡ true

  known_of_apply :
      (fn a b : String) (context : Json N)
      → apply_predicate rt fn a b context ≡ some true
      → is_known rt fn ≡ true
  known_of_apply fn a b context h = elim (Bool-cases (is_known rt fn)) [
    | inl known ↦ known
    | inr unknown ↦ cc (apply_predicate-unknown fn a b context unknown)
  ]

  apply_arguments-IsCall :
      (predicate fn rest : String) (args : List String) (context : Json N)
      → match_call predicate ≡ some (fn, rest)
      → split_args rt.trim rest ≡ args
      → apply_arguments rt fn args context ≡ some true
      → (c : IsCall predicate) × (apply_predicate rt c.fn c.first c.second context ≡ some true)
  unfolding apply_arguments
  apply_arguments-IsCall predicate fn rest [] context m e h = absurd (ground arith)
  apply_arguments-IsCall predicate fn rest (a ∷ []) context m e h = absurd (ground arith)
  apply_arguments-IsCall predicate fn rest (a ∷ b ∷ others) context m e h = (
    record {
      fn = fn;
      rest = rest;
      first = a;
      second = b;
      others = others;
      matched = m;
      arguments = e;
      known = known_of_apply fn a b context h;
    },
    h,
  )

  -- A predicate that holds in some context is a call of a name of the closed vocabulary with two
  -- arguments at least, and the name's test holds of the first two in that context.
  pub evaluate-IsCall :
      (predicate : String) (context : Json N)
      → evaluate_predicate rt predicate context ≡ some true
      → (c : IsCall predicate) × (apply_predicate rt c.fn c.first c.second context ≡ some true)
  unfolding evaluate_predicate
  evaluate-IsCall predicate context h = elim (Option-cases (match_call predicate)) [
    | inl missed ↦ absurd (ground arith)
    | inr ((fn, rest), matched) ↦
        apply_arguments-IsCall predicate fn rest (split_args rt.trim rest) context matched refl
          (rw (matched, evaluate_predicate) at h)
  ]

  -- `less_than` and `greater_than`, and `at_most` and `at_least`, are each other's converse: with
  -- their arguments exchanged they hold together, fail together and throw together.
  pub comparisons_converse :
      (a b : String) (context : Json N)
      → (apply_predicate rt "less_than" a b context ≡ apply_predicate rt "greater_than" b a context)
        × (apply_predicate rt "at_most" a b context ≡ apply_predicate rt "at_least" b a context)
  unfolding apply_predicate
  comparisons_converse a b context = (ground arith, ground arith)

  -- `equals` holds of any two paths that lead to no value, since neither has a JSON text.
  pub equals_absent :
      (a b : String) (context : Json N)
      → rt.json_text undefined ≡ none
      → resolve_path rt a context ≡ some (value undefined)
      → resolve_path rt b context ≡ some (value undefined)
      → apply_predicate rt "equals" a b context ≡ some true
  unfolding apply_predicate
  equals_absent a b context u h k = ground arith
