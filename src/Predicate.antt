-- ===== src/Predicate.antt =====
-- `evaluatePredicate`, `splitArgs`, `stripQuotes` and `resolvePath` of
-- reference/coordinator/coordinator.js: the closed predicate vocabulary of RFC 0035.
-- A text is walked by characters. `none` is a thrown TypeError.
pub mod Text
pub mod Laws
use oap_spec.Prelude.{
  ℕ, zero, suc, String, Bool, true, false, not, ◌&&◌, ◌||◌, Option, none, some, List, [], ◌∷◌, map,
  ◌=s=◌, join, split_on, first_is, if◌then◌else◌, all, any, is_some,
}
use oap_spec.Json.{
  Json, undefined, null, bool, num, str, arr, obj, Fields, end, field, entries, Items, items,
}
use oap_spec.Predicate.Text.{match_call, split_args, strip_quotes}

-- What the JavaScript runtime does with values, as far as the predicates use it.
pub record Runtime (N : Type 0) : Type 0 where
  pub json_text : Json N → Option String  -- JSON.stringify; none is undefined
  pub to_number : Json N → N  -- Number(v)
  pub is_nan : N → Bool
  pub num_lt : N → N → Bool
  pub num_le : N → N → Bool
  pub same_value : Json N → Json N → Bool  -- the test of Array.prototype.includes
  pub get_prop : Json N → String → Json N  -- v[k], for v neither null, undefined nor a plain object
  pub has_prop : Json N → String → Option Bool  -- k in v, for the same v; none is a TypeError
  pub is_falsy : N → Bool
  pub trim : String → String

-- A path's value, or the `Symbol('mismatch')` of an `all_segments` path.
pub data Resolved (N : Type 0) : Type 0 where
  value : Json N → Resolved N
  mismatch : Resolved N

infixl 5 ◌>>=◌
abbrev pub ◌>>=◌ {ℓ κ} : {A : Type ℓ} {B : Type κ} → Option A → (A → Option B) → Option B
none >>= f = none
some a >>= f = f a

abbrev pub get : {N : Type 0} → String → Fields N → Option (Json N)
get k end = none
get k (field j v fs) = if j =s= k then some v else get k fs

abbrev pub or_undefined : {N : Type 0} → Option (Json N) → Json N
or_undefined none = undefined
or_undefined (some v) = v

abbrev pub same_text : Option String → Option String → Bool
same_text none none = true
same_text (some a) (some b) = a =s= b
same_text _ _ = false

abbrev is_empty {ℓ} : {A : Type ℓ} → List A → Bool
is_empty [] = true
is_empty (_ ∷ _) = false

-- The closed vocabulary of RFC 0035, section 4.5.
abbrev pub vocabulary : List String
vocabulary =
    "equals" ∷ "less_than" ∷ "greater_than" ∷ "at_least" ∷ "at_most" ∷ "subset_of" ∷ "disjoint"
    ∷ "attestation_present" ∷ []

abbrev fields_of : {N : Type 0} → Json N → Fields N
fields_of (obj fs) = fs
fields_of _ = end

-- `context.segments || {}`
abbrev pub segments_of : {N : Type 0} → Json N → Fields N
segments_of (obj fs) = elim (get "segments" fs) [ some v ↦ fields_of v | none ↦ end ]
segments_of _ = end

module _ {N : Type 0} (rt : Runtime N) where
  open rt use {
    json_text, to_number, is_nan, num_lt, num_le, same_value, get_prop, has_prop, is_falsy, trim,
  }

  abbrev json_of : Resolved N → Option String
  json_of (value v) = json_text v
  json_of mismatch = none

  -- Number(v); on a symbol it throws
  abbrev number_of : Resolved N → Option N
  number_of (value v) = some (to_number v)
  number_of mismatch = none

  abbrev pub truthy : Json N → Bool
  truthy undefined = false
  truthy null = false
  truthy (bool b) = b
  truthy (num n) = not (is_falsy n)
  truthy (str s) = not (s =s= "")
  truthy _ = true

  -- v[k]
  abbrev prop : Json N → String → Json N
  prop (obj fs) k = or_undefined (get k fs)
  prop v k = get_prop v k

  -- k in v
  abbrev has : Json N → String → Option Bool
  has (obj fs) k = some (is_some (get k fs))
  has v k = has_prop v k

  -- One round of the loop, on a value of type `object`: a field of the value, or of its `payload`.
  read_object : Json N → String → Option (Json N)
  read_object v k = do
    own ← has v k
    if own || not (truthy (prop v "payload")) then some (prop v k) else do
      in_payload ← has (prop v "payload") k
      some (if in_payload then prop (prop v "payload") k else prop v k)

  read : Json N → String → Option (Json N)
  unfolding read_object
  read (obj fs) k = read_object (obj fs) k
  read (arr vs) k = read_object (arr vs) k
  read v k = some (prop v k)

  walk : Json N → List String → Option (Json N)
  unfolding read
  walk v [] = some v
  walk undefined (p ∷ ps) = some undefined
  walk null (p ∷ ps) = some undefined
  walk v (p ∷ ps) = do next ← read v p; walk next ps

  -- `values.every(x => JSON.stringify(x) === JSON.stringify(values[0])) ? values[0] : Symbol(…)`
  abbrev agreed : List (Resolved N) → Resolved N
  agreed [] = value undefined
  agreed (r ∷ rs) = if all (λ x. same_text (json_of x) (json_of r)) (r ∷ rs) then r else mismatch

  abbrev sequence : List (Option (Resolved N)) → Option (List (Resolved N))
  sequence [] = some []
  sequence (none ∷ _) = none
  sequence (some r ∷ rest) = do rs ← sequence rest; some (r ∷ rs)

  -- `resolvePath`, on the text cut at its dots: the text of `all_segments.f` without its first part
  -- is the join of the other parts.
  unfoldable pub resolve_parts : List String → Json N → Option (Resolved N)
  unfolding walk
  resolve_parts [] context = some (value context)
  resolve_parts (part ∷ rest) context =
      let p = join "." (part ∷ rest) in
      let n = to_number (str p) in
      let nested = map (λ s. resolve_parts rest (s.1)) (entries (segments_of context)) in
      if first_is b'\'' p || first_is b'"' p
      then some (value (str (strip_quotes p)))
      else if not (is_nan n)
      then some (value (num n))
      else if p =s= "true"
      then some (value (bool true))
      else if p =s= "false"
      then some (value (bool false))
      else if part =s= "all_segments" && not (is_empty rest)
      then (do rs ← sequence nested; some (agreed rs))
      else (do v ← walk context (part ∷ rest); some (value v))

  unfoldable pub resolve_path : String → Json N → Option (Resolved N)
  resolve_path p = resolve_parts (split_on b'.' p)

  abbrev compare_numbers : (N → N → Bool) → Resolved N → Resolved N → Option Bool
  compare_numbers test a b = do x ← number_of a; y ← number_of b; some (test x y)

  -- `Array.isArray(a) && Array.isArray(b)`, then a test on the elements
  abbrev on_arrays : (List (Json N) → List (Json N) → Bool) → Resolved N → Resolved N → Bool
  on_arrays test (value (arr a)) (value (arr b)) = test (items a) (items b)
  on_arrays test _ _ = false

  abbrev includes : List (Json N) → Json N → Bool
  includes b x = any (same_value x) b

  -- `a.attestation_type === type`
  abbrev has_type : String → Json N → Option Bool
  has_type type undefined = none
  has_type type null = none
  has_type type v = some (elim (prop v "attestation_type") [ str t ↦ t =s= type | _ ↦ false ])

  abbrev some_type : String → List (Json N) → Option Bool
  some_type type [] = some false
  some_type type (a ∷ rest) = do
    here ← has_type type a
    if here then some true else some_type type rest

  -- `seg && Array.isArray(seg.attestations) && seg.attestations.some(…)`
  abbrev attestations_of : Option (Json N) → List (Json N)
  attestations_of none = []
  attestations_of (some seg) =
      if not (truthy seg) then [] else elim (prop seg "attestations") [ arr vs ↦ items vs | _ ↦ [] ]

  -- The `switch` over the predicate's name, with its first two arguments.
  unfoldable pub apply_predicate : String → String → String → Json N → Option Bool
  apply_predicate fn a b context =
      let resolved = λ (test : Resolved N → Resolved N → Option Bool). (do
        x ← resolve_path a context
        y ← resolve_path b context
        test x y) in
      if fn =s= "equals"
      then resolved (λ x y. some (same_text (json_of x) (json_of y)))
      else if fn =s= "less_than"
      then resolved (compare_numbers num_lt)
      else if fn =s= "greater_than"
      then resolved (compare_numbers (λ x y. num_lt y x))
      else if fn =s= "at_least"
      then resolved (compare_numbers (λ x y. num_le y x))
      else if fn =s= "at_most"
      then resolved (compare_numbers num_le)
      else if fn =s= "subset_of"
      then resolved (λ x y. some (on_arrays (λ xs ys. all (includes ys) xs) x y))
      else if fn =s= "disjoint"
      then resolved (λ x y. some (on_arrays (λ xs ys. not (any (includes ys) xs)) x y))
      else if fn =s= "attestation_present"
      then some_type (strip_quotes b) (attestations_of (get (strip_quotes a) (segments_of context)))
      else some false

  abbrev pub is_known : String → Bool
  is_known fn = any (λ k. fn =s= k) vocabulary

  -- An argument that is missing throws, unless the name is unknown.
  unfoldable pub apply_arguments : String → List String → Json N → Option Bool
  apply_arguments fn (a ∷ b ∷ _) context = apply_predicate fn a b context
  apply_arguments fn _ context = if is_known fn then none else some false

  unfoldable pub evaluate_predicate : String → Json N → Option Bool
  evaluate_predicate predicate context = elim (match_call predicate) [
    | none ↦ some false
    | some (fn, rest) ↦ apply_arguments fn (split_args trim rest) context
  ]
