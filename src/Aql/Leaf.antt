-- ===== src/Aql/Leaf.antt =====
-- `compareLeaf`, `numCompare` and `dateCompare` (reference/aql/src/evaluator.js): whether a leaf
-- passes on the values that its path leads to. The texts of the reasons are left out.
use Prim.Native.Char.{code}
use oap_spec.Prelude.{
  String, Bool, true, false, not, ◌&&◌, ◌||◌, Option, none, some, List, [], ◌∷◌, ◌==◌, ◌=s=◌, leb,
  if◌then◌else◌, all, any,
}
use oap_spec.Json.{Json, undefined, null, bool, num, str, arr, obj, items}
use oap_spec.Predicate.{get}
use oap_spec.Aql.{Host}
use oap_spec.Aql.Path.{deep_equal}

abbrev pub is_empty {ℓ} : {A : Type ℓ} → List A → Bool
is_empty [] = true
is_empty (_ ∷ _) = false

-- /^-?\d+(\.\d+)?$/
unfoldable pub digits_to_end : String → Bool
digits_to_end String.[] = true
digits_to_end (String.◌∷◌ c s) = leb b'0' (code c) && leb (code c) b'9' && digits_to_end s

abbrev one_digit_or_more : String → Bool
one_digit_or_more String.[] = false
one_digit_or_more s = digits_to_end s

-- digits, and then perhaps a point and digits
unfoldable pub decimal_tail : String → Bool
decimal_tail String.[] = true
decimal_tail (String.◌∷◌ c s) =
    let more = decimal_tail s in
    if code c == b'.' then one_digit_or_more s else leb b'0' (code c) && leb (code c) b'9' && more

unfoldable pub unsigned_decimal : String → Bool
unsigned_decimal String.[] = false
unsigned_decimal (String.◌∷◌ c s) = leb b'0' (code c) && leb (code c) b'9' && decimal_tail s

unfoldable pub is_decimal : String → Bool
is_decimal String.[] = false
is_decimal (String.◌∷◌ c s) =
    if code c == b'-' then unsigned_decimal s else unsigned_decimal (String.◌∷◌ c s)

module _ {N : Type 0} (host : Host N) where
  -- `expected ? … : …`
  abbrev pub truthy : Json N → Bool
  truthy undefined = false
  truthy null = false
  truthy (bool b) = b
  truthy (num n) = not (host.is_falsy n)
  truthy (str s) = not (s =s= "")
  truthy _ = true

  abbrev is_numeric : Json N → Bool
  is_numeric (num n) = true
  is_numeric (str s) = is_decimal s
  is_numeric _ = false

  abbrev number_of : Json N → N
  number_of (num n) = n
  number_of v = host.to_number v

  unfoldable pub num_compare : List (Json N) → Json N → (N → N → Bool) → Bool
  num_compare values expected test =
      is_numeric expected
      && any (λ v. host.is_finite (number_of v) && test (number_of v) (host.to_number expected))
          values

  unfoldable pub date_compare : List (Json N) → Json N → (N → N → Bool) → Bool
  date_compare values expected test =
      let e = host.parse_date expected in
      host.is_finite e
      && any (λ v. host.is_finite (host.parse_date v) && test (host.parse_date v) e) values

  abbrev pub member_of : List (Json N) → Json N → Bool
  member_of set v = any (deep_equal host v) set

  abbrev holds_element : Json N → Json N → Bool
  holds_element expected (str s) = elim expected [ str t ↦ host.includes s t | _ ↦ false ]
  holds_element expected (arr vs) = any (λ el. deep_equal host el expected) (items vs)
  holds_element expected _ = false

  abbrev matches_text : (String → Bool) → Json N → Bool
  matches_text re (str s) = re s
  matches_text re _ = false

  -- `{from, to}`, as dates; an array has neither key
  abbrev pub window : Json N → Option (N × N)
  window (obj fs) = elim (get "from" fs) [
    | none ↦ none
    | some from ↦ elim (get "to" fs) [
      | none ↦ none
      | some to ↦ some (host.parse_date from, host.parse_date to)
    ]
  ]
  window _ = none

  abbrev within : N × N → Json N → Bool
  within (from, to) v =
      let t = host.parse_date v in host.is_finite t && host.num_le from t && host.num_le t to

  abbrev outside : N × N → Json N → Bool
  outside (from, to) v =
      let t = host.parse_date v in host.is_finite t && (host.num_lt t from || host.num_lt to t)

  unfoldable pub in_set : List (Json N) → Json N → Bool
  in_set values (arr vs) = not (is_empty values) && any (member_of (items vs)) values
  in_set values _ = false

  unfoldable pub not_in_set : List (Json N) → Json N → Bool
  not_in_set values (arr vs) =
      not (is_empty values) && all (λ v. not (member_of (items vs) v)) values
  not_in_set values _ = false

  unfoldable pub matches : List (Json N) → Option (String → Bool) → Bool
  matches values none = false
  matches values (some re) = not (is_empty values) && any (matches_text re) values

  unfoldable pub within_window : List (Json N) → Option (N × N) → Bool
  within_window values none = false
  within_window values (some w) = not (is_empty values) && any (within w) values

  unfoldable pub outside_window : List (Json N) → Option (N × N) → Bool
  outside_window values none = false
  outside_window values (some w) = not (is_empty values) && all (outside w) values

  -- The later cases of the `switch`.
  unfoldable pub compare_sets : List (Json N) → String → Json N → Bool
  compare_sets values operator expected =
      if operator =s= "in"
      then in_set values expected
      else if operator =s= "not_in"
      then not_in_set values expected
      else if operator =s= "contains"
      then not (is_empty values) && any (holds_element expected) values
      else if operator =s= "matches"
      then matches values (host.reg_exp expected)
      else if operator =s= "before"
      then date_compare values expected host.num_lt
      else if operator =s= "after"
      then date_compare values expected (λ a b. host.num_lt b a)
      else if operator =s= "within"
      then within_window values (window expected)
      else if operator =s= "outside"
      then outside_window values (window expected)
      else false

  unfoldable pub compare_leaf : List (Json N) → String → Json N → Bool
  compare_leaf values operator expected =
      let nonempty = not (is_empty values) in
      if operator =s= "exists"
      then (if truthy expected then nonempty else not nonempty)
      else if operator =s= "eq"
      then nonempty && any (λ v. deep_equal host v expected) values
      else if operator =s= "ne"
      then nonempty && all (λ v. not (deep_equal host v expected)) values
      else if operator =s= "lt"
      then num_compare values expected host.num_lt
      else if operator =s= "lte"
      then num_compare values expected host.num_le
      else if operator =s= "gt"
      then num_compare values expected (λ a b. host.num_lt b a)
      else if operator =s= "gte"
      then num_compare values expected (λ a b. host.num_le b a)
      else compare_sets values operator expected
