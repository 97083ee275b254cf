-- ===== src/Json.antt =====
-- JavaScript values, and `canonicalize`: the canonical text that every hash and signature is taken
-- over (reference/coordinator/coordinator.js; reference/server/server.js,
-- reference/agent/conformance-verifier.js and reference/aht/canonical.js hold the same function).
-- `N` is the type of the numbers. An object is the list of its entries, in the order of `Object.keys`.
pub mod Sorted
pub mod Canonical
use Prim.Native.String
use Prim.Native.Char.{code}
use oap_spec.Prelude.{
  String, Bool, true, false, Option, none, some, List, [], ◌∷◌, map, ltb, ◌+s◌, ◌=s=◌, join,
  if◌then◌else◌,
}

mutual
  pub data Json (N : Type 0) : Type 0 where
    undefined : Json N
    null : Json N
    bool : Bool → Json N
    num : N → Json N
    str : String → Json N
    arr : Items N → Json N
    obj : Fields N → Json N

  pub data Items (N : Type 0) : Type 0 where
    nil : Items N
    cons : Json N → Items N → Items N

  pub data Fields (N : Type 0) : Type 0 where
    end : Fields N
    field : String → Json N → Fields N → Fields N

abbrev pub entries : {N : Type 0} → Fields N → List (String × Json N)
entries end = []
entries (field k v fs) = (k, v) ∷ entries fs

abbrev pub items : {N : Type 0} → Items N → List (Json N)
items nil = []
items (cons v vs) = v ∷ items vs

-- `delete o.k` on a copy
unfoldable pub without : {N : Type 0} → String → Fields N → Fields N
without k end = end
without k (field j v fs) = let rest = without k fs in if j =s= k then rest else field j v rest

-- `sort()` on keys. Keys compare by code points, which is the order by code units on the
-- basic plane.
unfoldable pub before : String → String → Bool
before String.[] t = true
before (String.◌∷◌ c s) String.[] = false
before (String.◌∷◌ c s) (String.◌∷◌ d t) =
    if ltb (code c) (code d) then true else if ltb (code d) (code c) then false else before s t

unfoldable pub insert_key {ℓ} : {A : Type ℓ} → String × A → List (String × A) → List (String × A)
insert_key (k, v) [] = (k, v) ∷ []
insert_key (k, v) ((j, w) ∷ rest) = elim (before k j) [
  | true ↦ (k, v) ∷ (j, w) ∷ rest
  | false ↦ (j, w) ∷ insert_key (k, v) rest
]

unfoldable pub sort_keys {ℓ} : {A : Type ℓ} → List (String × A) → List (String × A)
unfolding insert_key
sort_keys [] = []
sort_keys (e ∷ rest) = insert_key e (sort_keys rest)

-- `'{' + keys.map(k => … ).join(',') + '}'`, over the texts of the values
abbrev pub member : (String → String) → String × String → String
member quote (k, text) = quote k +s ":" +s text

-- `stringify` is `JSON.stringify` on what is no object.
module _ {N : Type 0} (stringify : Json N → String) where
  unfoldable mutual
    unfolding sort_keys join

    pub canonicalize : Json N → String
    canonicalize (arr vs) = "[" +s join "," (canonicalize_items vs) +s "]"
    canonicalize (obj fs) =
        "{"
        +s join "," (map (member (λ k. stringify (str k))) (sort_keys (canonicalize_fields fs)))
        +s "}"
    canonicalize v = stringify v

    pub canonicalize_items : Items N → List String
    canonicalize_items nil = []
    canonicalize_items (cons v vs) = canonicalize v ∷ canonicalize_items vs

    pub canonicalize_fields : Fields N → List (String × String)
    canonicalize_fields end = []
    canonicalize_fields (field k v fs) = (k, canonicalize v) ∷ canonicalize_fields fs
