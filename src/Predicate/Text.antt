-- ===== src/Predicate/Text.antt =====
-- The texts of predicates: `/^(\w+)\((.+)\)$/`, `splitArgs` and `stripQuotes`.
use Prim.Native.Char.{Char, code}
use Prim.Native.String
use Prim.Native.String.{String, [], ◌∷◌}
use oap_spec.Prelude.{
  ℕ, ◌+◌, Bool, true, false, ◌&&◌, ◌||◌, Option, none, some, ◌==◌, leb, ◌=s=◌, if◌then◌else◌,
  first_is, last_is, drop_first, drop_last,
}
use mathlib.Core.List.{List}
use mathlib.Core.Option

-- \w
unfoldable pub is_word : Char → Bool
is_word c =
    let n = code c in
    leb b'a' n && leb n b'z' || leb b'A' n && leb n b'Z' || leb b'0' n && leb n b'9' || n == b'_'

-- what `.` does not match
unfoldable pub is_newline : Char → Bool
is_newline c = let n = code c in n == 10 || n == 13 || n == 0x2028 || n == 0x2029

-- The text before a last `)`, if no newline stands in it and it is not empty.
unfoldable pub until_close : String → Option String
unfolding is_newline
until_close [] = none
until_close (c ∷ []) = none
until_close (c ∷ d ∷ []) =
    if is_newline c then none else if code d == b')' then some (c ∷ []) else none
until_close (c ∷ d ∷ e ∷ s) =
    if is_newline c then none else Option.map (λ t. c ∷ t) (until_close (d ∷ e ∷ s))

-- The two groups of the pattern: the word before the first `(`, and the rest up to a last `)`.
unfoldable pub match_call : String → Option (String × String)
unfolding is_word until_close
match_call [] = none
match_call (c ∷ []) = none
match_call (c ∷ d ∷ s) =
    if is_word c
    then (if code d == b'('
        then Option.map (λ t. (c ∷ [], t)) (until_close s)
        else Option.map (λ m. (c ∷ m.0, m.1)) (match_call (d ∷ s)))
    else none

abbrev push : String → Char → String
push s c = String.◌++◌ s (c ∷ [])

abbrev one_if : Bool → ℕ
one_if true = 1
one_if false = 0

module _ (trim : String → String) where
  -- The loop of `splitArgs`. Its `depth` is `opened` - `closed`, which may be below zero.
  unfoldable pub split_args_from : String → ℕ → ℕ → String → List String
  split_args_from [] opened closed cur =
      let t = trim cur in if t =s= "" then List.[] else List.◌∷◌ t List.[]
  split_args_from (c ∷ s) opened closed cur =
      let n = code c in
      let next = split_args_from s opened closed "" in
      let more =
        split_args_from s (opened + one_if (n == b'(' || n == b'['))
          (closed + one_if (n == b')' || n == b']')) (push cur c) in
      if n == b',' && opened == closed then List.◌∷◌ (trim cur) next else more

  unfoldable pub split_args : String → List String
  unfolding split_args_from
  split_args s = split_args_from s 0 0 ""

unfoldable pub strip_quotes : String → String
unfolding last_is drop_last
strip_quotes s =
    if first_is b'\'' s && last_is b'\'' s || first_is b'"' s && last_is b'"' s
    then drop_last (drop_first s)
    else s
