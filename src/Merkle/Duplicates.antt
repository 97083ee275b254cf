-- ===== src/Merkle/Duplicates.antt =====
-- `current[i + 1] || left`: a last node without a sibling is paired with itself.
use mathlib.Core.List.{map-append}
use oap_spec.Prelude.{
  ℕ, zero, suc, ◌+◌, ◌%◌, ◌≤◌, ◌≡◌, refl, ap, String, List, [], ◌∷◌, ◌++◌, map, arith, length,
  length-map, length-append,
}
use oap_spec.Merkle.{merkle_leaf, next_layer, layers_from, top_of, build_merkle_tree}
use oap_spec.Merkle.Inclusion.{layers_from-cons, length-next_layer}

module _ (sha256 : String → String) where
  next_layer-duplicate :
      (xs : List String) (l : String)
      → length xs % 2 ≡ 0
      → next_layer sha256 (xs ++ l ∷ l ∷ []) ≡ next_layer sha256 (xs ++ l ∷ [])
  unfolding next_layer
  next_layer-duplicate [] l e = ground arith
  next_layer-duplicate (x ∷ []) l e = absurd (omega arith)
  next_layer-duplicate (x ∷ y ∷ xs) l e = rw (next_layer-duplicate xs l (omega arith))

  -- A round more than enough changes nothing.
  layers_from-more :
      (n : ℕ) (c : List String)
      → length c ≤ n + 1
      → layers_from sha256 (suc n) c ≡ layers_from sha256 n c
  unfolding layers_from
  layers_from-more zero [] le = refl
  layers_from-more zero (h ∷ []) le = refl
  layers_from-more zero (h ∷ k ∷ c) le = absurd (omega arith)
  layers_from-more (suc n) [] le = refl
  layers_from-more (suc n) (h ∷ []) le = refl
  layers_from-more (suc n) (h ∷ k ∷ c) le =
      ap (λ above. (h ∷ k ∷ c) ∷ above)
        (layers_from-more n (next_layer sha256 (h ∷ k ∷ c))
          (omega (arith, length-next_layer sha256 (h ∷ k ∷ c))))

  top_of-layers_from :
      (n : ℕ) (h k : String) (rest : List String)
      → top_of (layers_from sha256 (suc n) (h ∷ k ∷ rest))
        ≡ top_of (layers_from sha256 n (next_layer sha256 (h ∷ k ∷ rest)))
  unfolding layers_from top_of
  top_of-layers_from n h k rest =
      let (above, is_cons) = layers_from-cons sha256 n (next_layer sha256 (h ∷ k ∷ rest)) in
      rw is_cons

  root-layers :
      (a b : String) (c : List String)
      → (build_merkle_tree sha256 (a ∷ b ∷ c)).root
        ≡ top_of (
            layers_from sha256
              (suc (length c))
              (next_layer sha256 (map (merkle_leaf sha256) (a ∷ b ∷ c))))
  unfolding build_merkle_tree
  root-layers a b c =
      top_of-layers_from (suc (length c)) (merkle_leaf sha256 a) (merkle_leaf sha256 b)
        (map (merkle_leaf sha256) c)

  next_layer-map_duplicate :
      (xs : List String) (l : String)
      → length xs % 2 ≡ 0
      → next_layer sha256 (map (merkle_leaf sha256) (xs ++ l ∷ l ∷ []))
        ≡ next_layer sha256 (map (merkle_leaf sha256) (xs ++ l ∷ []))
  next_layer-map_duplicate xs l e =
      let leaf = merkle_leaf sha256 in
      rw (map-append leaf xs (l ∷ l ∷ []), map-append leaf xs (l ∷ []))
        (next_layer-duplicate (map leaf xs) (leaf l) (omega (arith, length-map leaf xs)))

  -- A list of three or more leaves in odd number has the same root as the list that repeats its
  -- last leaf, whatever the hash function.
  pub root-duplicate_last :
      (a b : String) (ys : List String) (l : String)
      → length ys % 2 ≡ 0
      → (build_merkle_tree sha256 (a ∷ b ∷ (ys ++ l ∷ l ∷ []))).root
        ≡ (build_merkle_tree sha256 (a ∷ b ∷ (ys ++ l ∷ []))).root
  root-duplicate_last a b ys l e =
      let n = length (ys ++ l ∷ []) in
      let longer : length (ys ++ l ∷ l ∷ []) ≡ suc n =
        omega (arith, length-append ys (l ∷ l ∷ []), length-append ys (l ∷ [])) in
      let leaves = map (merkle_leaf sha256) (a ∷ b ∷ (ys ++ l ∷ [])) in
      let enough : length (next_layer sha256 leaves) ≤ suc n + 1 =
        omega (
          arith,
          length-next_layer sha256 leaves,
          length-map (merkle_leaf sha256) (ys ++ l ∷ []),
        ) in
      rw
        (
          root-layers a b (ys ++ l ∷ l ∷ []),
          root-layers a b (ys ++ l ∷ []),
          longer,
          next_layer-map_duplicate (a ∷ b ∷ ys) l (omega arith),
        )
        (ap top_of (layers_from-more (suc n) (next_layer sha256 leaves) enough))
