-- ===== src/Aql/Descent.antt =====
-- The case "**" of `walk`: what is found at any depth (reference/aql/src/projection.js).
use mathlib.Core.List.{append_assoc}
use oap_spec.Prelude.{
  ℕ, ◌+◌, String, Option, some, List, [], ◌∷◌, ◌++◌, ◌≡◌, inl, refl, ◌∙◌, arith, get_elem?, All,
  All-map,
}
use oap_spec.Json.{
  Json, undefined, null, bool, num, str, arr, obj, Items, nil, cons, items, Fields, end, field,
}
use oap_spec.Aql.Projection.{Matches}
use oap_spec.Aql.Collect.{Found, Walk, descend, descend_items, descend_fields}
use oap_spec.Aql.Found.{
  All-append, HasEntry, Verdict, At, item, entry, FoundAt, ItemOf, FieldOf, later_item, later_field,
  first_item,
}

module _ {N : Type 0} (show : ℕ → String) (to_index : String → Option ℕ) where
  -- The verdict holds at the node or somewhere below it.
  pub data Deep (Q : Verdict N) : Json N → List String → Found N → Type 0 where
    at_node : (v : Json N) (path : List String) (g : Found N) → Q v path g → Deep Q v path g
    in_item :
        (xs : Items N) (i : ℕ) (w : Json N) (path : List String) (g : Found N)
        → get_elem? (items xs) i ≡ some w
        → Deep Q w (path ++ show i ∷ []) g
        → Deep Q (arr xs) path g
    in_field :
        (fs : Fields N) (k : String) (w : Json N) (path : List String) (g : Found N)
        → HasEntry k w fs
        → Deep Q w (path ++ k ∷ []) g
        → Deep Q (obj fs) path g

  items_below :
      (Q : Verdict N) (xs : Items N) (path : List String) (g : Found N)
      → ItemOf show to_index (Deep Q) xs 0 path g
      → Deep Q (arr xs) path g
  items_below Q xs path g (j, v, at, q) =
      let same : 0 + j ≡ j = omega arith in in_item xs j v path g at (rw same at q)

  fields_below :
      (Q : Verdict N) (fs : Fields N) (path : List String) (g : Found N)
      → FieldOf show to_index (Deep Q) fs path g
      → Deep Q (obj fs) path g
  fields_below Q fs path g (k, v, at, q) = in_field fs k v path g at q

  module _ (Q : Verdict N) (f : Walk N)
      (sound : (v : Json N) (path : List String) → All (Q v path) (f v path)) where
    mutual
      unfolding descend

      pub descend-All :
          (node : Json N) (path : List String)
          → All (Deep Q node path) (descend show to_index f node path)
      descend-All undefined path = tt
      descend-All null path = tt
      descend-All (bool b) path = All-map (at_node (bool b) path) _ (sound (bool b) path)
      descend-All (num n) path = All-map (at_node (num n) path) _ (sound (num n) path)
      descend-All (str s) path = All-map (at_node (str s) path) _ (sound (str s) path)
      descend-All (arr xs) path =
          All-append _ (descend_items show to_index f xs 0 path) _
            (All-map (items_below Q xs path) _ (descend_items-All xs 0 path))
            (All-map (at_node (arr xs) path) _ (sound (arr xs) path))
      descend-All (obj fs) path =
          All-append _ (descend_fields show to_index f fs path) _
            (All-map (fields_below Q fs path) _ (descend_fields-All fs path))
            (All-map (at_node (obj fs) path) _ (sound (obj fs) path))

      descend_items-All :
          (vs : Items N) (i : ℕ) (path : List String)
          → All (ItemOf show to_index (Deep Q) vs i path) (descend_items show to_index f vs i path)
      descend_items-All nil i path = tt
      descend_items-All (cons v vs) i path =
          All-append _ (descend show to_index f v (path ++ show i ∷ [])) _
            (All-map (first_item show to_index (Deep Q) v vs i path) _
              (descend-All v (path ++ show i ∷ [])))
            (All-map (later_item show to_index (Deep Q) v vs i path) _
              (descend_items-All vs (i + 1) path))

      descend_fields-All :
          (fs : Fields N) (path : List String)
          → All (FieldOf show to_index (Deep Q) fs path) (descend_fields show to_index f fs path)
      descend_fields-All end path = tt
      descend_fields-All (field k v fs) path =
          All-append _ (descend show to_index f v (path ++ k ∷ [])) _
            (All-map (λ g q. (k, v, inl (refl, refl), q)) _ (descend-All v (path ++ k ∷ [])))
            (All-map (later_field show to_index (Deep Q) k v fs path) _
              (descend_fields-All fs path))

  -- The path of a fragment that is found below goes on from the node.
  pub Deep-FoundAt :
      (rest : List String) (node : Json N) (path : List String) (g : Found N)
      → Deep (FoundAt show to_index rest) node path g
      → (skipped : List String) × (p : List String) × (g.0 ≡ path ++ (skipped ++ p))
        × Matches rest p
        × At show to_index node (skipped ++ p) g.1
  Deep-FoundAt rest _ _ _ (at_node v path g (p, e, m, a)) = ([], p, e, m, a)
  Deep-FoundAt rest _ _ _ (in_item xs i w path g at d) =
      let (skipped, p, e, m, a) = Deep-FoundAt rest w (path ++ show i ∷ []) g d in
      (
        show i ∷ skipped,
        p,
        e ∙ append_assoc path (show i ∷ []) (skipped ++ p),
        m,
        item xs i (show i) w (skipped ++ p) g.1 at (inl refl) a,
      )
  Deep-FoundAt rest _ _ _ (in_field fs k w path g at d) =
      let (skipped, p, e, m, a) = Deep-FoundAt rest w (path ++ k ∷ []) g d in
      (
        k ∷ skipped,
        p,
        e ∙ append_assoc path (k ∷ []) (skipped ++ p),
        m,
        entry fs k w (skipped ++ p) g.1 at a,
      )
