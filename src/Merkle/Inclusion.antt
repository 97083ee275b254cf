-- ===== src/Merkle/Inclusion.antt =====
-- The proofs that `buildMerkleTree` hands out (reference/match-broker/broker.js).
use oap_spec.Prelude.{
  ℕ, zero, suc, ◌+◌, ◌-◌, ◌*◌, ◌/◌, ◌%◌, ◌≤◌, ◌<◌, ◌≡◌, refl, sym, ap, ◌∙◌, String, true, false,
  some, List, [], ◌∷◌, map, arith, ◌=s=◌, eq_iff, length, get_elem?, All, length-map,
  lt_of_get_elem?, get_elem?-map,
}
use oap_spec.Merkle.{
  Step, or_text, merkle_leaf, merkle_node, next_layer, layers_from, sibling_step, proof_from,
  proofs_from, top_of, build_merkle_tree, climb, root_from, verify_inclusion_proof,
}

-- What every layer holds: digests, none of which is the empty text.
abbrev IsFilled : List String → Type 0
IsFilled = All (λ h. (h =s= "") ≡ false)

or_text-filled : (h d : String) → (h =s= "") ≡ false → or_text (some h) d ≡ h
or_text-filled h d e = ground arith

get_elem?-filled :
    (xs : List String) (i : ℕ) {h : String}
    → IsFilled xs
    → get_elem? xs i ≡ some h
    → (h =s= "") ≡ false
get_elem?-filled [] i f e = cc
get_elem?-filled (x ∷ xs) zero f e = ground (arith, f.0)
get_elem?-filled (x ∷ xs) (suc i) f e = get_elem?-filled xs i f.1 e

sibling_step-shift :
    (l r : String) (rest : List String) (i : ℕ)
    → sibling_step (l ∷ r ∷ rest) (suc (suc i)) ≡ sibling_step rest i
unfolding sibling_step
sibling_step-shift l r rest zero = ground arith
sibling_step-shift l r rest (suc i) =
    let parity : suc (suc (suc i)) % 2 ≡ suc i % 2 = omega arith in
    let after : suc (suc (suc i)) + 1 ≡ suc (suc (suc i + 1)) = omega arith in
    let before : suc (suc (suc i)) - 1 ≡ suc (suc i) = omega arith in
    let before' : suc i - 1 ≡ i = omega arith in rw (parity, after, before, before')

module _ (sha256 : String → String) where
  -- A digest in a layer moves to its parent by the step that the proof records.
  climb-sibling_step :
      (layer : List String) (idx : ℕ) (h : String)
      → IsFilled layer
      → get_elem? layer idx ≡ some h
      → get_elem? (next_layer sha256 layer) (idx / 2)
        ≡ some (climb sha256 h (sibling_step layer idx))
  unfolding next_layer climb
  climb-sibling_step [] idx h f e = cc
  climb-sibling_step (l ∷ []) zero h f e = unfold sibling_step in ground arith
  climb-sibling_step (l ∷ []) (suc i) h f e = cc
  climb-sibling_step (l ∷ r ∷ rest) zero h f e = unfold sibling_step in ground arith
  climb-sibling_step (l ∷ r ∷ rest) (suc zero) h f e = unfold sibling_step in ground arith
  climb-sibling_step (l ∷ r ∷ rest) (suc (suc i)) h f e =
      rw (let e' : suc (suc i) / 2 ≡ suc (i / 2) = omega arith in e') (
        climb-sibling_step rest i h f.1.1 e
        ∙ ap (λ s. some (climb sha256 h s)) (sym (sibling_step-shift l r rest i)))

  pub layers_from-cons :
      (n : ℕ) (c : List String)
      → (above : List (List String)) × (layers_from sha256 n c ≡ c ∷ above)
  unfolding layers_from
  layers_from-cons zero c = ([], refl)
  layers_from-cons (suc n) [] = ([], refl)
  layers_from-cons (suc n) (h ∷ []) = ([], refl)
  layers_from-cons (suc n) (h ∷ k ∷ rest) = (_, refl)

  pub length-next_layer : (c : List String) → length (next_layer sha256 c) * 2 ≤ length c + 1
  unfolding next_layer
  length-next_layer [] = omega arith
  length-next_layer (h ∷ []) = omega arith
  length-next_layer (h ∷ k ∷ rest) = omega (arith, length-next_layer rest)

  module _ (no_empty : (s : String) → (sha256 s =s= "") ≡ false) where
    pub next_layer-IsFilled : (c : List String) → IsFilled (next_layer sha256 c)
    unfolding next_layer merkle_node
    next_layer-IsFilled [] = tt
    next_layer-IsFilled (h ∷ []) = (no_empty _, tt)
    next_layer-IsFilled (h ∷ k ∷ rest) = (no_empty _, next_layer-IsFilled rest)

    -- With a round for each halving, the proof for a place leads from it to the top.
    root_from-proof_from :
        (n : ℕ) (c : List String) (idx : ℕ) (h : String)
        → length c ≤ n + 1
        → IsFilled c
        → get_elem? c idx ≡ some h
        → root_from sha256 h (proof_from (layers_from sha256 n c) idx)
          ≡ top_of (layers_from sha256 n c)
    unfolding layers_from proof_from top_of root_from
    root_from-proof_from n [] idx h le f e = cc
    root_from-proof_from zero (g ∷ []) zero h le f e = ground arith
    root_from-proof_from zero (g ∷ []) (suc idx) h le f e = cc
    root_from-proof_from zero (g ∷ k ∷ rest) idx h le f e = absurd (omega arith)
    root_from-proof_from (suc n) (g ∷ []) zero h le f e = ground arith
    root_from-proof_from (suc n) (g ∷ []) (suc idx) h le f e = cc
    root_from-proof_from (suc n) (g ∷ k ∷ rest) idx h le f e =
        let c = g ∷ k ∷ rest in
        let (above, is_cons) = layers_from-cons n (next_layer sha256 c) in
        let ih =
          root_from-proof_from n (next_layer sha256 c) (idx / 2) _
            (omega (arith, length-next_layer c)) (next_layer-IsFilled c)
            (climb-sibling_step c idx h f e) in
        rw is_cons (rw is_cons at ih)

proof_from_at_zero :
    (layers : List (List String)) (i : ℕ)
    → some (proof_from layers (0 + i)) ≡ some (proof_from layers i)
proof_from_at_zero layers i = rw (let e : 0 + i ≡ i = omega arith in e)

get_elem?-proofs_from :
    (layers : List (List String)) (j i : ℕ) (ls : List String)
    → i < length ls
    → get_elem? (proofs_from layers j ls) i ≡ some (proof_from layers (j + i))
unfolding proofs_from
get_elem?-proofs_from layers j i [] lt = absurd (omega arith)
get_elem?-proofs_from layers j zero (l ∷ ls) lt =
    ap (λ k. some (proof_from layers k)) (let e : j ≡ j + 0 = omega arith in e)
get_elem?-proofs_from layers j (suc i) (l ∷ ls) lt =
    get_elem?-proofs_from layers (j + 1) i ls (omega arith)
    ∙ ap (λ k. some (proof_from layers k)) (let e : j + 1 + i ≡ j + suc i = omega arith in e)

module _ (sha256 : String → String) (no_empty : (s : String) → (sha256 s =s= "") ≡ false) where
  map-merkle_leaf-IsFilled : (ls : List String) → IsFilled (map (merkle_leaf sha256) ls)
  unfolding merkle_leaf
  map-merkle_leaf-IsFilled [] = tt
  map-merkle_leaf-IsFilled (l ∷ ls) = (no_empty _, map-merkle_leaf-IsFilled ls)

  -- For every leaf of the list that a tree was built from, the tree holds a proof at the leaf's
  -- place, and that proof leads from the leaf to the tree's root.
  pub verify-build_merkle_tree :
      (leaves : List String) (i : ℕ) (leaf : String)
      → get_elem? leaves i ≡ some leaf
      → (path : List Step) × (get_elem? (build_merkle_tree sha256 leaves).proofs i ≡ some path)
        × (verify_inclusion_proof sha256 leaf path (build_merkle_tree sha256 leaves).root ≡ true)
  unfolding build_merkle_tree verify_inclusion_proof
  verify-build_merkle_tree [] i leaf e = cc
  verify-build_merkle_tree (l ∷ ls) i leaf e = (
    proof_from (layers_from sha256 (length (l ∷ ls)) (map (merkle_leaf sha256) (l ∷ ls))) i,
    get_elem?-proofs_from _ 0 i (l ∷ ls) (lt_of_get_elem? (l ∷ ls) i e) ∙ proof_from_at_zero _ i,
    (eq_iff _ _).1 (
        root_from-proof_from sha256 no_empty (length (l ∷ ls)) (map (merkle_leaf sha256) (l ∷ ls)) i
          (merkle_leaf sha256 leaf) (omega (arith, length-map (merkle_leaf sha256) ls))
          (map-merkle_leaf-IsFilled (l ∷ ls)) (get_elem?-map (merkle_leaf sha256) (l ∷ ls) i e)),
  )
