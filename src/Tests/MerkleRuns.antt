-- ===== src/Tests/MerkleRuns.antt =====
-- The theorems on the verifiable index, at small trees.
use oap_spec.Prelude.{
  ◌≤◌, suc, map, length, String, true, List, [], ◌∷◌, some, ◌≡◌, ◌⊎◌, refl, get_elem?,
}
use oap_spec.Merkle.{
  left, right, Step, merkle_leaf, merkle_node, climb_at, climb, root_from, build_merkle_tree,
  verify_inclusion_proof,
}
use oap_spec.Merkle.Inclusion.{verify-build_merkle_tree}
use oap_spec.Merkle.Binding.{Collision, verify_binds}
use oap_spec.Merkle.Termination.{Loops, build_merkle_tree-Loops}
use oap_spec.Tests.{pad, digest, digest-filled, count-pad}

abbrev three : List String
three = "agent-a" ∷ "agent-b" ∷ "agent-c" ∷ []

verify-build_merkle_tree_example :
    (path : List Step) × (get_elem? (build_merkle_tree digest three).proofs 2 ≡ some path)
    × (verify_inclusion_proof digest "agent-c" path (build_merkle_tree digest three).root ≡ true)
verify-build_merkle_tree_example =
    verify-build_merkle_tree digest digest-filled three 2 "agent-c" refl

build_merkle_tree-Loops_example :
    Loops digest (map (merkle_leaf digest) three) (build_merkle_tree digest three).layers
    × (length (build_merkle_tree digest three).layers ≤ suc (length three))
build_merkle_tree-Loops_example = build_merkle_tree-Loops digest three (λ e. cc e)

-- A root that a proof of two steps reaches from `agent-c`.
abbrev path_c : List Step
path_c =
    record { position = right; hash = digest "sibling" }
    ∷ record { position = left; hash = digest "left half" }
    ∷ []

abbrev root_c : String
root_c = root_from digest (merkle_leaf digest "agent-c") path_c

verify_binds_example : (◌≡◌ {A = String} "agent-c" "agent-c") ⊎ Collision digest
unfolding pad verify_inclusion_proof root_from merkle_leaf climb climb_at merkle_node
verify_binds_example =
    verify_binds digest (count-pad 64) "agent-c" "agent-c" root_c path_c path_c (refl, (refl, tt))
      refl refl
