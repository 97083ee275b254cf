-- ===== src/Aql/Collect.antt =====
-- `project`, `collect` and `walk` of reference/aql/src/projection.js, up to the calls of `assign`: which
-- values of a record cross the boundary, and under which paths. A record is a JSON value, so that
-- `deepClone` gives back what it is given; names of Object.prototype are no keys.
use oap_spec.Prelude.{
  ℕ, ◌+◌, String, Bool, true, false, ◌||◌, Option, none, some, List, [], ◌∷◌, ◌++◌, ◌+s◌, ◌=s=◌,
  if◌then◌else◌, join, lookup, get_elem?,
}
use oap_spec.Json.{
  Json, undefined, null, bool, num, str, arr, obj, Items, nil, cons, items, Fields, end, field,
  entries,
}
use oap_spec.Aql.Path.{segments_of}
use oap_spec.Aql.Leaf.{is_empty}
use oap_spec.Aql.Projection.{excluded}

-- A value with the segments of its path.
abbrev pub Found : Type 0 → Type 0
Found N = List String × Json N

abbrev pub Walk : Type 0 → Type 0
Walk N = Json N → List String → List (Found N)

abbrev pub path_text : List String → String
path_text path = "/" +s join "/" path

unfoldable pub is_root : (pointer : String) → Bool
is_root pointer = (pointer =s= "/") || (pointer =s= "")

module _ {N : Type 0} where
  -- What is not excluded.
  unfoldable pub keep : (exclude : List String) → List (Found N) → List (Found N)
  keep exclude [] = []
  keep exclude ((path, v) ∷ rest) =
      let later = keep exclude rest in
      if excluded (path_text path) exclude then later else (path, v) ∷ later

  abbrev pub root_entries : List (String × Json N) → List (Found N)
  root_entries [] = []
  root_entries ((k, v) ∷ rest) = (k ∷ [], v) ∷ root_entries rest

  unfoldable pub root_fragments : Json N → List (Found N)
  root_fragments (obj fs) = root_entries (entries fs)
  root_fragments v = []

  -- The fragments of a pointer, each at the root as one for each entry of its value.
  unfoldable pub expand : List (Found N) → List (Found N)
  expand [] = []
  expand ((path, v) ∷ rest) =
      let later = expand rest in
      if path_text path =s= "/" then root_fragments v ++ later else (path, v) ∷ later

-- `show` is String of a number, and `to_index` is Number of a text, if that is an integer from 0 on.
module _ {N : Type 0} (show : ℕ → String) (to_index : String → Option ℕ) where
  -- The loops over the children of a node, with one walk for all of them.
  unfoldable pub each_item : Walk N → Items N → ℕ → List String → List (Found N)
  each_item f nil i path = []
  each_item f (cons v vs) i path = f v (path ++ show i ∷ []) ++ each_item f vs (i + 1) path

  unfoldable pub each_field : Walk N → Fields N → List String → List (Found N)
  each_field f end path = []
  each_field f (field k v fs) path = f v (path ++ k ∷ []) ++ each_field f fs path

  -- The case of "*".
  unfoldable pub each : Walk N → Walk N
  each f (arr xs) path = each_item f xs 0 path
  each f (obj fs) path = each_field f fs path
  each f v path = []

  -- The case of "**" with segments after it, for which `f` walks: the children first, and then the
  -- node itself, unless it is null or undefined.
  unfoldable mutual
    pub descend : Walk N → Walk N
    descend f undefined path = []
    descend f null path = []
    descend f (bool b) path = f (bool b) path
    descend f (num n) path = f (num n) path
    descend f (str s) path = f (str s) path
    descend f (arr xs) path = descend_items f xs 0 path ++ f (arr xs) path
    descend f (obj fs) path = descend_fields f fs path ++ f (obj fs) path

    pub descend_items : Walk N → Items N → ℕ → List String → List (Found N)
    descend_items f nil i path = []
    descend_items f (cons v vs) i path =
        descend f v (path ++ show i ∷ []) ++ descend_items f vs (i + 1) path

    pub descend_fields : Walk N → Fields N → List String → List (Found N)
    descend_fields f end path = []
    descend_fields f (field k v fs) path = descend f v (path ++ k ∷ []) ++ descend_fields f fs path

  -- The case of any other segment.
  unfoldable pub child : Walk N → String → Walk N
  child f head (arr xs) path = elim (to_index head) [
    | none ↦ []
    | some i ↦ elim (get_elem? (items xs) i) [ none ↦ [] | some v ↦ f v (path ++ head ∷ []) ]
  ]
  child f head (obj fs) path = elim (lookup head (entries fs)) [
    | none ↦ []
    | some v ↦ f v (path ++ head ∷ [])
  ]
  child f head v path = []

  abbrev pub is_nullish : Json N → Bool
  is_nullish undefined = true
  is_nullish null = true
  is_nullish _ = false

  unfoldable pub walk : (segments : List String) → Walk N
  walk [] node path = (path, node) ∷ []
  walk (head ∷ rest) node path =
      let next = walk rest in
      if is_nullish node
      then []
      else if head =s= "*"
      then each next node path
      else if head =s= "**"
      then (if is_empty rest then (path, node) ∷ [] else descend next node path)
      else child next head node path

  unfoldable pub collect : Json N → (pointer : String) → List (Found N)
  collect record' pointer =
      if is_root pointer then ([], record') ∷ [] else walk (segments_of pointer) record' []

  -- The calls of `assign` that `project` makes, by their arguments. The include list is "/" where
  -- there is none.
  unfoldable pub assignments : Json N → (include exclude : List String) → List (Found N)
  assignments record' [] exclude = []
  assignments record' (pointer ∷ include) exclude =
      keep exclude (expand (collect record' pointer)) ++ assignments record' include exclude

  unfoldable pub project_assignments :
      Json N → (include exclude : Option (List String)) → List (Found N)
  project_assignments record' include exclude =
      assignments record' (elim include as (λ _. List String) [ none ↦ "/" ∷ [] | some i ↦ i ])
        (elim exclude as (λ _. List String) [ none ↦ [] | some e ↦ e ])
