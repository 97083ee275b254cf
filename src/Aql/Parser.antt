-- ===== src/Aql/Parser.antt =====
-- `parseIntent` and `validateConstraintTree` (reference/aql/src/parser.js). The schema check of Ajv is
-- an argument; an error is told by its kind and, in a tree, by the pointer it names.
use oap_spec.Prelude.{
  ℕ, suc, String, Bool, true, false, not, ◌&&◌, ◌||◌, Option, none, some, List, [], ◌∷◌, ◌++◌, map,
  ◌+s◌, ◌=s=◌, any, is_some, ltb, lookup, length, if◌then◌else◌,
}
use oap_spec.Json.{
  Json, undefined, null, bool, num, str, arr, obj, Items, nil, cons, Fields, end, field, entries,
}

-- VALID_OPERATORS
unfoldable pub valid_operators : List String
valid_operators =
    "eq" ∷ "ne" ∷ "lt" ∷ "lte" ∷ "gt" ∷ "gte" ∷ "in" ∷ "not_in" ∷ "contains" ∷ "matches" ∷ "before"
    ∷ "after" ∷ "within" ∷ "outside" ∷ "exists" ∷ []

pub data TreeError : Type 0 where
  not_an_object empty_list incomplete_leaf unknown_operator : (pointer : String) → TreeError

-- VALID_OPERATORS.has(v)
abbrev pub is_operator : {N : Type 0} → Json N → Bool
is_operator (str s) = any (λ o. o =s= s) valid_operators
is_operator v = false

-- The last checks of `validateConstraintTree`, on an object that is no list and no negation.
unfoldable pub check_leaf :
    {N : Type 0} → List (String × Json N) → (pointer : String) → List TreeError
check_leaf es pointer = elim (lookup "operator" es) [
  | none ↦ incomplete_leaf pointer ∷ []
  | some operator ↦
      if not (is_some (lookup "path" es)) || not (is_some (lookup "value" es))
      then incomplete_leaf pointer ∷ []
      else if is_operator operator
      then []
      else unknown_operator pointer ∷ []
]

module _ {N : Type 0} (show : ℕ → String) where
  -- `validateConstraintTree`: the errors that it pushes. `check_list` is what it does under a key with a
  -- list, and the functions on fields look such a key up.
  unfoldable mutual
    unfolding check_leaf

    pub validate_constraint_tree : Json N → (pointer : String) → List TreeError
    validate_constraint_tree (obj fs) pointer = elim (under_list "all_of" fs pointer) [
      | some errors ↦ errors
      | none ↦ elim (under_list "any_of" fs pointer) [
        | some errors ↦ errors
        | none ↦ elim (under_not fs pointer) [
          | some errors ↦ errors
          | none ↦ check_leaf (entries fs) pointer
        ]
      ]
    ]
    validate_constraint_tree (arr vs) pointer = incomplete_leaf pointer ∷ []
    validate_constraint_tree undefined pointer = not_an_object pointer ∷ []
    validate_constraint_tree null pointer = not_an_object pointer ∷ []
    validate_constraint_tree (bool b) pointer = not_an_object pointer ∷ []
    validate_constraint_tree (num n) pointer = not_an_object pointer ∷ []
    validate_constraint_tree (str s) pointer = not_an_object pointer ∷ []

    pub check_list : Json N → (pointer : String) → List TreeError
    check_list (arr nil) pointer = empty_list pointer ∷ []
    check_list (arr (cons v vs)) pointer = check_items (cons v vs) 0 pointer
    check_list (obj fs) pointer = empty_list pointer ∷ []
    check_list undefined pointer = empty_list pointer ∷ []
    check_list null pointer = empty_list pointer ∷ []
    check_list (bool b) pointer = empty_list pointer ∷ []
    check_list (num n) pointer = empty_list pointer ∷ []
    check_list (str s) pointer = empty_list pointer ∷ []

    pub check_items : Items N → ℕ → (pointer : String) → List TreeError
    check_items nil i pointer = []
    check_items (cons v vs) i pointer =
        validate_constraint_tree v (pointer +s "/" +s show i) ++ check_items vs (suc i) pointer

    pub under_list : String → Fields N → (pointer : String) → Option (List TreeError)
    under_list key end pointer = none
    under_list key (field k v fs) pointer = elim (k =s= key) [
      | true ↦ some (check_list v (pointer +s "/" +s key))
      | false ↦ under_list key fs pointer
    ]

    pub under_not : Fields N → (pointer : String) → Option (List TreeError)
    under_not end pointer = none
    under_not (field k v fs) pointer = elim (k =s= "not") [
      | true ↦ some (validate_constraint_tree v (pointer +s "/not"))
      | false ↦ under_not fs pointer
    ]

-- `intent.budget`; a top_k that is no number, or a distribution that is no array, is none.
pub record Budget (N : Type 0) : Type 0 where
  pub allocation : String
  pub top_k : Option N
  pub distribution : Option (List N)

pub record Intent (N : Type 0) : Type 0 where
  pub constraints : Json N
  pub budget : Option (Budget N)
  pub category : String
  pub max_event_rate_per_minute : Option N
  pub from : String
  pub to : String

pub data IntentError : Type 0 where
  invalid_json schema_error needs_top_k bad_sum length_mismatch needs_event_rate empty_validity :
      IntentError
  tree_error : TreeError → IntentError

-- What the parser takes from the runtime. A text that is no date is none.
pub record Runtime (N : Type 0) : Type 0 where
  pub read : Json N → Option (Intent N)  -- the fields of an intent that fits the schema
  pub parse_json : String → Option (Json N)
  pub sums_to_one : List N → Bool  -- Math.abs(sum - 1) > 1e-6 does not hold
  pub of_nat : ℕ → N
  pub num_eq : N → N → Bool
  pub date : String → Option ℕ
  pub show : ℕ → String

abbrev pub when : Bool → IntentError → List IntentError
when b e = if b then e ∷ [] else []

module _ {N : Type 0} (runtime : Runtime N) where
  abbrev pub has_length : List N → Option N → Bool
  has_length ns none = true
  has_length ns (some k) = runtime.num_eq (runtime.of_nat (length ns)) k

  abbrev pub check_distribution : Option (List N) → Option N → List IntentError
  check_distribution none top_k = []
  check_distribution (some ns) top_k =
      when (not (runtime.sums_to_one ns)) bad_sum
      ++ when (not (has_length ns top_k)) length_mismatch

  unfoldable pub check_budget : Option (Budget N) → List IntentError
  check_budget none = []
  check_budget (some b) =
      if b.allocation =s= "ranked_top_k"
      then when (not (is_some b.top_k)) needs_top_k ++ check_distribution b.distribution b.top_k
      else []

  -- `to > from` on dates; false if one of them is no date
  unfoldable pub is_after : Option ℕ → Option ℕ → Bool
  is_after (some to) (some from) = ltb from to
  is_after none from = false
  is_after (some to) none = false

  -- The checks of `parseIntent` past the schema.
  unfoldable pub intent_errors : Intent N → List IntentError
  intent_errors intent =
      map tree_error (validate_constraint_tree runtime.show intent.constraints "/constraints")
      ++ (check_budget intent.budget
          ++ (when
                ((intent.category =s= "subscription")
                  && not (is_some intent.max_event_rate_per_minute))
                needs_event_rate
              ++ when (not (is_after (runtime.date intent.to) (runtime.date intent.from)))
                  empty_validity))

  -- `parseIntent` on a value: the intent, or the errors.
  unfoldable pub parse_intent : Json N → List IntentError × Option (Intent N)
  parse_intent v = elim (runtime.read v) [
    | none ↦ (schema_error ∷ [], none)
    | some intent ↦ elim (intent_errors intent) [ [] ↦ ([], some intent) | e ∷ es ↦ (e ∷ es, none) ]
  ]

  unfoldable pub parse_intent_text : String → List IntentError × Option (Intent N)
  parse_intent_text s = elim (runtime.parse_json s) [
    | none ↦ (invalid_json ∷ [], none)
    | some v ↦ parse_intent v
  ]
