-- ===== src/Aql/Path.antt =====
-- `resolvePath` and `deepEqual` (reference/aql/src/evaluator.js).
use oap_spec.Prelude.{
  ℕ, String, Bool, true, false, not, ◌&&◌, ◌||◌, Option, none, some, List, [], ◌∷◌, ◌++◌, ◌==◌,
  ◌=s=◌, if◌then◌else◌, length, get_elem?, split_on, first_is, drop_first,
}
use oap_spec.Json.{
  Json, undefined, null, bool, num, str, arr, obj, Items, nil, cons, Fields, end, field, items,
}
use oap_spec.Predicate.{get, or_undefined}
use oap_spec.Aql.{Host}

-- Object.values
abbrev pub values_of : {N : Type 0} → Fields N → List (Json N)
values_of end = []
values_of (field k v fs) = v ∷ values_of fs

-- `collectAll`: the node and all below it, but no null and no undefined
unfoldable mutual
  pub collect_all : {N : Type 0} → Json N → List (Json N)
  collect_all undefined = []
  collect_all null = []
  collect_all (arr vs) = arr vs ∷ collect_items vs
  collect_all (obj fs) = obj fs ∷ collect_fields fs
  collect_all v = v ∷ []

  pub collect_items : {N : Type 0} → Items N → List (Json N)
  collect_items nil = []
  collect_items (cons v vs) = collect_all v ++ collect_items vs

  pub collect_fields : {N : Type 0} → Fields N → List (Json N)
  collect_fields end = []
  collect_fields (field k v fs) = collect_all v ++ collect_fields fs

-- pointer.replace(/^\//, '').split('/')
unfoldable pub segments_of : String → List String
segments_of pointer = split_on b'/' (if first_is b'/' pointer then drop_first pointer else pointer)

module _ {N : Type 0} (host : Host N) where
  abbrev at_index : Items N → Option ℕ → List (Json N)
  at_index vs none = []
  at_index vs (some i) = elim (get_elem? (items vs) i) [ none ↦ [] | some v ↦ v ∷ [] ]

  abbrev at_key : Option (Json N) → List (Json N)
  at_key none = []
  at_key (some v) = v ∷ []

  -- What one segment leads to from one node. An object has its own keys only: a segment that is a name
  -- of Object.prototype, which `in` finds too, is left out.
  unfoldable pub children : String → Json N → List (Json N)
  children head v =
      if head =s= "*"
      then elim v [ arr vs ↦ items vs | obj fs ↦ values_of fs | _ ↦ [] ]
      else if head =s= "**"
      then collect_all v
      else elim v [
        | arr vs ↦ at_index vs (host.array_index head)
        | obj fs ↦ at_key (get head fs)
        | _ ↦ []
      ]

  unfoldable pub step_all : String → List (Json N) → List (Json N)
  step_all head [] = []
  step_all head (v ∷ rest) = children head v ++ step_all head rest

  -- `walk`
  unfoldable pub walk : List (Json N) → List String → List (Json N)
  walk nodes [] = nodes
  walk nodes (head ∷ rest) = walk (step_all head nodes) rest

  unfoldable pub resolve_path : Json N → String → List (Json N)
  resolve_path doc pointer =
      if pointer =s= "" || pointer =s= "/" then doc ∷ [] else walk (doc ∷ []) (segments_of pointer)

  -- `deepEqual`. An object's own keys are compared, and `b[k]` is undefined where `b` lacks `k`.
  unfoldable mutual
    pub deep_equal : Json N → Json N → Bool
    deep_equal undefined undefined = true
    deep_equal null null = true
    deep_equal (bool a) (bool b) = a && b || not a && not b
    deep_equal (num a) (num b) = host.num_eq a b
    deep_equal (str a) (str b) = a =s= b
    deep_equal (arr a) (arr b) = equal_items a b
    deep_equal (obj a) (obj b) = length (values_of a) == length (values_of b) && equal_fields a b
    deep_equal _ _ = false

    pub equal_items : Items N → Items N → Bool
    equal_items nil nil = true
    equal_items (cons a as') (cons b bs) = deep_equal a b && equal_items as' bs
    equal_items _ _ = false

    pub equal_fields : Fields N → Fields N → Bool
    equal_fields end b = true
    equal_fields (field k v a) b = deep_equal v (or_undefined (get k b)) && equal_fields a b
