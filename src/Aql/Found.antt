-- ===== src/Aql/Found.antt =====
-- Values at paths of a record, and the loops of `walk` over children (reference/aql/src/projection.js).
use oap_spec.Prelude.{
  ℕ, suc, ◌+◌, String, Option, some, List, [], ◌∷◌, ◌++◌, ◌≡◌, ◌⊎◌, inl, inr, refl, arith, ◌=s=◌,
  eq_iff, lookup, get_elem?, All, All-map, Bool-cases,
}
use oap_spec.Json.{Json, arr, obj, Items, nil, cons, items, Fields, end, field, entries}
use oap_spec.Aql.Projection.{Matches}
use oap_spec.Aql.Collect.{Found, Walk, each_item, each_field}

module _ {ℓ κ} {A : Type ℓ} (P : A → Type κ) where
  pub All-append : (xs ys : List A) → All P xs → All P ys → All P (xs ++ ys)
  All-append [] ys h k = k
  All-append (x ∷ xs) ys h k = (h.0, All-append xs ys h.1 k)

abbrev pub HasEntry : {N : Type 0} → String → Json N → Fields N → Type 0
HasEntry k v end = ⊥
HasEntry k v (field j w fs) = ((j ≡ k) × (w ≡ v)) ⊎ HasEntry k v fs

pub lookup-HasEntry :
    {N : Type 0} (k : String) (v : Json N) (fs : Fields N)
    → lookup k (entries fs) ≡ some v
    → HasEntry k v fs
lookup-HasEntry k v end h = cc h
lookup-HasEntry k v (field j w fs) h = elim (Bool-cases (j =s= k)) [
  | inl e ↦ inl ((eq_iff j k).0 e, cc (rw e at h))
  | inr e ↦ inr (lookup-HasEntry k v fs (rw e at h))
]

abbrev pub Verdict : Type 0 → Type 1
Verdict N = Json N → List String → Found N → Type 0

module _ {N : Type 0} (show : ℕ → String) (to_index : String → Option ℕ) where
  -- The value at a path: an element is named by its index or by a text that stands for it.
  pub data At : Json N → List String → Json N → Type 0 where
    here : (v : Json N) → At v [] v
    item :
        (xs : Items N) (i : ℕ) (h : String) (w : Json N) (p : List String) (v : Json N)
        → get_elem? (items xs) i ≡ some w
        → (h ≡ show i) ⊎ (to_index h ≡ some i)
        → At w p v
        → At (arr xs) (h ∷ p) v
    entry :
        (fs : Fields N) (k : String) (w : Json N) (p : List String) (v : Json N)
        → HasEntry k w fs
        → At w p v
        → At (obj fs) (k ∷ p) v

  -- A fragment below a node at a path: its own path matches the segments and leads to its value.
  abbrev pub FoundAt : List String → Json N → List String → Found N → Type 0
  FoundAt segments node path g =
      (p : List String) × (g.0 ≡ path ++ p) × Matches segments p × At node p g.1

  -- The verdict holds at a child.
  abbrev pub ItemOf : Verdict N → Items N → ℕ → List String → Found N → Type 0
  ItemOf Q xs i path g =
      (j : ℕ) × (v : Json N) × (get_elem? (items xs) j ≡ some v) × Q v (path ++ show (i + j) ∷ []) g

  abbrev pub FieldOf : Verdict N → Fields N → List String → Found N → Type 0
  FieldOf Q fs path g = (k : String) × (v : Json N) × HasEntry k v fs × Q v (path ++ k ∷ []) g

  pub later_item :
      (Q : Verdict N) (v : Json N) (vs : Items N) (i : ℕ) (path : List String) (g : Found N)
      → ItemOf Q vs (i + 1) path g
      → ItemOf Q (cons v vs) i path g
  later_item Q v vs i path g (j, w, at, q) =
      let same : i + 1 + j ≡ i + suc j = omega arith in (suc j, w, at, rw same at q)

  pub later_field :
      (Q : Verdict N) (k : String) (v : Json N) (fs : Fields N) (path : List String) (g : Found N)
      → FieldOf Q fs path g
      → FieldOf Q (field k v fs) path g
  later_field Q k v fs path g (j, w, at, q) = (j, w, inr at, q)

  pub first_item :
      (Q : Verdict N) (v : Json N) (vs : Items N) (i : ℕ) (path : List String) (g : Found N)
      → Q v (path ++ show i ∷ []) g
      → ItemOf Q (cons v vs) i path g
  first_item Q v vs i path g q = let same : i ≡ i + 0 = omega arith in (0, v, refl, rw same at q)

  module _ (Q : Verdict N) (f : Walk N)
      (sound : (v : Json N) (path : List String) → All (Q v path) (f v path)) where
    pub each_item-All :
        (vs : Items N) (i : ℕ) (path : List String)
        → All (ItemOf Q vs i path) (each_item show to_index f vs i path)
    unfolding each_item
    each_item-All nil i path = tt
    each_item-All (cons v vs) i path =
        All-append _ (f v (path ++ show i ∷ [])) _
          (All-map (first_item Q v vs i path) _ (sound v (path ++ show i ∷ [])))
          (All-map (later_item Q v vs i path) _ (each_item-All vs (i + 1) path))

    pub each_field-All :
        (fs : Fields N) (path : List String)
        → All (FieldOf Q fs path) (each_field show to_index f fs path)
    unfolding each_field
    each_field-All end path = tt
    each_field-All (field k v fs) path =
        All-append _ (f v (path ++ k ∷ [])) _
          (All-map (λ g q. (k, v, inl (refl, refl), q)) _ (sound v (path ++ k ∷ [])))
          (All-map (later_field Q k v fs path) _ (each_field-All fs path))
