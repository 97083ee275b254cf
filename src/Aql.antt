-- ===== src/Aql.antt =====
-- The Agent Query Language (reference/aql/src): its constraint trees, and what its code takes from
-- the runtime. The operations stand in the modules below.
pub mod Path
pub mod Leaf
pub mod Evaluate
pub mod Resolve
pub mod Meaning
pub mod Operators
pub mod Ranking
pub mod Order
pub mod Projection
pub mod Collect
pub mod Found
pub mod Descent
pub mod Walking
pub mod Boundary
pub mod Parser
pub mod Trees
pub mod Grammar
pub mod Intents
use oap_spec.Prelude.{ℕ, String, Bool, Option, List}
use oap_spec.Json.{Json}

-- A constraint tree that the parser has accepted.
mutual
  pub data Node (N : Type 0) : Type 0 where
    all_of : Nodes N → Node N
    any_of : Nodes N → Node N
    negation : Node N → Node N
    leaf : (path operator : String) → (value : Json N) → Node N

  pub data Nodes (N : Type 0) : Type 0 where
    none_left : Nodes N
    also : Node N → Nodes N → Nodes N

pub record Host (N : Type 0) : Type 0 where
  pub num_eq : N → N → Bool  -- ===
  pub num_lt : N → N → Bool
  pub num_le : N → N → Bool
  pub to_number : Json N → N  -- Number(v)
  pub is_finite : N → Bool
  pub parse_date : Json N → N  -- Date.parse(v)
  pub reg_exp : Json N → Option (String → Bool)  -- new RegExp(v); none if that throws
  pub includes : String → String → Bool  -- String.prototype.includes
  pub array_index : String → Option ℕ  -- Number(text), if that is an integer from 0 on
  pub zero : N
  pub ratio : ℕ → ℕ → N
  pub is_falsy : N → Bool  -- 0 and NaN
