-- ===== src/Merkle.antt =====
-- The verifiable index of the match broker: `merkleLeaf`, `merkleNode` and `buildMerkleTree` of
-- reference/match-broker/broker.js. A tree is a list of layers of hexadecimal digests.
pub mod Inclusion
pub mod Binding
pub mod Duplicates
pub mod Termination
use Prim.Native.String.{◌++◌}
use oap_spec.Prelude.{
  ℕ, zero, suc, ◌+◌, ◌-◌, ◌/◌, ◌%◌, String, Bool, true, false, Option, none, some, List, [], ◌∷◌,
  map, ◌==◌, ◌=s=◌, if◌then◌else◌, length, get_elem?,
}

pub data Position : Type 0 where
  left right : Position

pub record Step : Type 0 where
  pub position : Position
  pub hash : String

pub record Tree : Type 0 where
  pub root : String
  pub proofs : List (List Step)
  pub layers : List (List String)

-- `a || b` on texts: the empty text is falsy, and so is `undefined`.
abbrev pub or_text : Option String → String → String
or_text none d = d
or_text (some s) d = if s =s= "" then d else s

-- The function that `crypto.createHash('sha256')` computes, as a hexadecimal text.
module _ (sha256 : String → String) where
  unfoldable pub merkle_leaf : String → String
  merkle_leaf data' = sha256 ("\0" ++ data')

  unfoldable pub merkle_node : String → String → String
  merkle_node l r = sha256 ("\u{1}" ++ l ++ r)

  -- one pass of the inner loop: `i` runs over the even positions
  unfoldable pub next_layer : List String → List String
  next_layer [] = []
  next_layer (l ∷ []) = merkle_node l (or_text none l) ∷ []
  next_layer (l ∷ r ∷ rest) = merkle_node l (or_text (some r) l) ∷ next_layer rest

  -- `while (current.length > 1)`; the first argument bounds the rounds
  unfoldable pub layers_from : ℕ → List String → List (List String)
  layers_from zero current = current ∷ []
  layers_from (suc n) [] = [] ∷ []
  layers_from (suc n) (h ∷ []) = (h ∷ []) ∷ []
  layers_from (suc n) (h ∷ k ∷ rest) = (h ∷ k ∷ rest) ∷ layers_from n (next_layer (h ∷ k ∷ rest))

-- One round of the loop that builds a proof: `layer[siblingIdx] || layer[idx]`, where `layer[idx]`
-- is there.
unfoldable pub sibling_step : List String → ℕ → Step
sibling_step layer idx =
    if idx % 2 == 0
    then record {
      position = right;
      hash = or_text (get_elem? layer (idx + 1)) (or_text (get_elem? layer idx) "");
    }
    else record {
      position = left;
      hash = or_text (get_elem? layer (idx - 1)) (or_text (get_elem? layer idx) "");
    }

-- `for (level = 0; level < layers.length - 1; level++)`
unfoldable pub proof_from : List (List String) → ℕ → List Step
proof_from [] idx = []
proof_from (top ∷ []) idx = []
proof_from (layer ∷ above ∷ rest) idx = sibling_step layer idx ∷ proof_from (above ∷ rest) (idx / 2)

-- `leaves.map((_, leafIdx) => …)`, from `leafIdx` on
unfoldable pub proofs_from : List (List String) → ℕ → List String → List (List Step)
proofs_from layers idx [] = []
proofs_from layers idx (_ ∷ rest) = proof_from layers idx ∷ proofs_from layers (idx + 1) rest

-- `current[0]`, for the last layer
unfoldable pub top_of : List (List String) → String
top_of [] = ""
top_of ((h ∷ _) ∷ []) = h
top_of ([] ∷ []) = ""
top_of (_ ∷ above ∷ rest) = top_of (above ∷ rest)

module _ (sha256 : String → String) where
  unfoldable pub build_merkle_tree : List String → Tree
  unfolding merkle_leaf
  build_merkle_tree [] = record { root = sha256 "empty"; proofs = []; layers = [] }
  build_merkle_tree (l ∷ ls) =
      let layers = layers_from sha256 (length (l ∷ ls)) (map (merkle_leaf sha256) (l ∷ ls)) in
      record { root = top_of layers; proofs = proofs_from layers 0 (l ∷ ls); layers = layers }

  -- One step of `verifyInclusionProof`, the check that a client makes (test/smoke.test.js).
  unfoldable pub climb_at : Position → String → String → String
  climb_at right hash current = merkle_node sha256 current hash
  climb_at left hash current = merkle_node sha256 hash current

  unfoldable pub climb : String → Step → String
  unfolding climb_at
  climb current step = climb_at step.position step.hash current

  unfoldable pub root_from : String → List Step → String
  root_from current [] = current
  root_from current (step ∷ path) = root_from (climb current step) path

  unfoldable pub verify_inclusion_proof : String → List Step → String → Bool
  verify_inclusion_proof leaf path root = root_from (merkle_leaf sha256 leaf) path =s= root
