-- ===== src/Aql/Operators.antt =====
-- How the operators of the closed set relate.
use oap_spec.Prelude.{
  String, Bool, true, false, not, Option, none, some, List, [], ◌∷◌, ◌≡◌, refl, arith, ◌=s=◌, all,
  any,
}
use oap_spec.Json.{Json, arr, items, Items}
use oap_spec.Aql.{Host}
use oap_spec.Aql.Path.{deep_equal}
use oap_spec.Aql.Leaf.{
  compare_leaf, compare_sets, in_set, not_in_set, matches, within_window, outside_window, window,
  num_compare, date_compare, member_of, truthy,
}

all-not {ℓ} : {A : Type ℓ} (p : A → Bool) (xs : List A) → all (λ x. not (p x)) xs ≡ not (any p xs)
all-not p [] = refl
all-not p (x ∷ xs) = ground (arith, all-not p xs)

module _ {N : Type 0} (host : Host N) where
  -- On a path that leads somewhere `ne` is the negation of `eq`, and `not_in` that of `in` for a list
  -- of values; `exists` with a falsy value is always the negation of `exists` with one that is not.
  pub operators_opposite :
      (v : Json N) (vs values : List (Json N)) (expected yes' no' : Json N) (set : Items N)
      → truthy host yes' ≡ true
      → truthy host no' ≡ false
      → (compare_leaf host (v ∷ vs) "ne" expected ≡ not (compare_leaf host (v ∷ vs) "eq" expected))
        × (compare_leaf host (v ∷ vs) "not_in" (arr set)
            ≡ not (compare_leaf host (v ∷ vs) "in" (arr set)))
        × (compare_leaf host values "exists" no' ≡ not (compare_leaf host values "exists" yes'))
  unfolding compare_leaf compare_sets in_set not_in_set
  operators_opposite v vs values expected yes' no' set y n = (
    all-not (λ x. deep_equal host x expected) (v ∷ vs),
    all-not (member_of host (items set)) (v ∷ vs),
    ground arith,
  )

  num_compare-nil :
      (expected : Json N) (test : N → N → Bool) → num_compare host [] expected test ≡ false
  unfolding num_compare
  num_compare-nil expected test = ground arith

  date_compare-nil :
      (expected : Json N) (test : N → N → Bool) → date_compare host [] expected test ≡ false
  unfolding date_compare
  date_compare-nil expected test = ground arith

  in_set-nil : (expected : Json N) → in_set host [] expected ≡ false
  unfolding in_set
  in_set-nil (arr vs) = refl
  in_set-nil expected = refl

  not_in_set-nil : (expected : Json N) → not_in_set host [] expected ≡ false
  unfolding not_in_set
  not_in_set-nil (arr vs) = refl
  not_in_set-nil expected = refl

  matches-nil : (re : Option (String → Bool)) → matches host [] re ≡ false
  unfolding matches
  matches-nil none = refl
  matches-nil (some re) = refl

  within_window-nil : (w : Option (N × N)) → within_window host [] w ≡ false
  unfolding within_window
  within_window-nil none = refl
  within_window-nil (some w) = refl

  outside_window-nil : (w : Option (N × N)) → outside_window host [] w ≡ false
  unfolding outside_window
  outside_window-nil none = refl
  outside_window-nil (some w) = refl

  compare_sets-nil :
      (operator : String) (expected : Json N) → compare_sets host [] operator expected ≡ false
  unfolding compare_sets
  compare_sets-nil operator expected = ground (
    arith,
    in_set-nil expected,
    not_in_set-nil expected,
    matches-nil (host.reg_exp expected),
    date_compare-nil expected host.num_lt,
    date_compare-nil expected (λ a b. host.num_lt b a),
    within_window-nil (window host expected),
    outside_window-nil (window host expected),
  )

  -- A path that leads to no value fails every operator but `exists`, the negative ones included.
  pub compare_leaf-nil :
      (operator : String) (expected : Json N)
      → (operator =s= "exists") ≡ false
      → compare_leaf host [] operator expected ≡ false
  unfolding compare_leaf
  compare_leaf-nil operator expected h = ground (
    arith,
    num_compare-nil expected host.num_lt,
    num_compare-nil expected host.num_le,
    num_compare-nil expected (λ a b. host.num_lt b a),
    num_compare-nil expected (λ a b. host.num_le b a),
    compare_sets-nil operator expected,
  )
