-- ===== src/Merkle/Termination.antt =====
-- The loop of `buildMerkleTree` ends (reference/match-broker/broker.js).
use oap_spec.Prelude.{
  ℕ, zero, suc, ◌≤◌, ◌<◌, String, List, [], ◌∷◌, map, ◌≢◌, refl, arith, length, length-map,
}
use oap_spec.Merkle.{merkle_leaf, next_layer, layers_from, build_merkle_tree}

module _ (sha256 : String → String) where
  -- `while (current.length > 1)` from a layer, and the layers that it leaves, with no bound.
  pub data Loops : List String → List (List String) → Type 0 where
    ends : (c : List String) → length c ≤ 1 → Loops c (c ∷ [])
    goes_on :
        (c : List String) (above : List (List String))
        → 1 < length c
        → Loops (next_layer sha256 c) above
        → Loops c (c ∷ above)

  next_layer-lt :
      (h k : String) (rest : List String)
      → length (next_layer sha256 (h ∷ k ∷ rest)) < length (h ∷ k ∷ rest)
  unfolding next_layer
  next_layer-lt h k [] = omega arith
  next_layer-lt h k (l ∷ []) = omega arith
  next_layer-lt h k (l ∷ m ∷ rest) = omega (arith, next_layer-lt l m rest)

  layers_from-Loops :
      (n : ℕ) (c : List String) → length c ≤ suc n → Loops c (layers_from sha256 n c)
  unfolding layers_from
  layers_from-Loops zero c le = ends c le
  layers_from-Loops (suc n) [] le = ends [] (omega arith)
  layers_from-Loops (suc n) (h ∷ []) le = ends (h ∷ []) (omega arith)
  layers_from-Loops (suc n) (h ∷ k ∷ rest) le = goes_on (h ∷ k ∷ rest) _ (omega arith) (
      layers_from-Loops n (next_layer sha256 (h ∷ k ∷ rest))
        (omega (arith, next_layer-lt h k rest)))

  length-layers_from : (n : ℕ) (c : List String) → length (layers_from sha256 n c) ≤ suc n
  unfolding layers_from
  length-layers_from zero c = omega arith
  length-layers_from (suc n) [] = omega arith
  length-layers_from (suc n) (h ∷ []) = omega arith
  length-layers_from (suc n) (h ∷ k ∷ rest) =
      omega (arith, length-layers_from n (next_layer sha256 (h ∷ k ∷ rest)))

  -- For leaves of any number but none, the loop ends by its own test, after at most as many rounds as
  -- there are leaves, and the tree has exactly the layers that it leaves.
  pub build_merkle_tree-Loops :
      (leaves : List String)
      → leaves ≢ []
      → Loops (map (merkle_leaf sha256) leaves) (build_merkle_tree sha256 leaves).layers
        × (length (build_merkle_tree sha256 leaves).layers ≤ suc (length leaves))
  unfolding build_merkle_tree
  build_merkle_tree-Loops [] h = absurd (h refl)
  build_merkle_tree-Loops (l ∷ ls) h = (
    layers_from-Loops (length (l ∷ ls)) (map (merkle_leaf sha256) (l ∷ ls))
        (omega (arith, length-map (merkle_leaf sha256) ls)),
    length-layers_from (length (l ∷ ls)) (map (merkle_leaf sha256) (l ∷ ls)),
  )
