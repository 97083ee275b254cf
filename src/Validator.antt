-- ===== src/Validator.antt =====
-- `inferConformanceLevel` and `validateReceiptChain` of reference/validator/validate.js.
pub mod Levels
pub mod Chains
pub mod Shape
pub mod Documents
use oap_spec.Prelude.{
  ℕ, suc, ◌+◌, String, Bool, true, false, not, ◌&&◌, ◌||◌, Option, none, some, List, [], ◌∷◌, ◌=s=◌,
  ◌+s◌, if◌then◌else◌,
}
use oap_spec.Json.{Json, undefined, null, bool, num, str, arr, obj, Items, nil, cons, Fields}
use oap_spec.Predicate.{get, or_undefined}

pub record Host (N : Type 0) : Type 0 where
  pub stringify : Json N → String  -- JSON.stringify
  pub sha256_hex : String → String
  pub is_falsy_num : N → Bool

-- `v.k` on a plain object; anything else has no such key here
abbrev pub prop : {N : Type 0} → Json N → String → Json N
prop (obj fs) k = or_undefined (get k fs)
prop _ k = undefined

abbrev pub is_empty_array : {N : Type 0} → Json N → Bool
is_empty_array (arr nil) = true
is_empty_array _ = false

pub data Level : Type 0 where
  l0 l1 l2 l3 l4 l5 : Level

abbrev pub same_level : Level → Level → Bool
same_level l1 l1 = true
same_level l2 l2 = true
same_level l3 l3 = true
same_level l4 l4 = true
same_level _ _ = false

pub data Problem : Type 0 where
  no_genesis : Problem
  chain_broken : ℕ → Problem

-- The statements of `inferConformanceLevel`, on the tests that they make.
unfoldable pub raise_level : (base market trust collaboration audit : Bool) → Level
raise_level base market trust collaboration audit =
    if not base
    then l0
    else let second = if market then l2 else l1 in
      let third = if same_level second l2 && trust then l3 else second in
      let fourth = if same_level third l3 && collaboration then l4 else third in
      if same_level fourth l4 && audit then l5 else fourth

module _ {N : Type 0} (host : Host N) where
  abbrev pub truthy : Json N → Bool
  truthy undefined = false
  truthy null = false
  truthy (bool b) = b
  truthy (num n) = not (host.is_falsy_num n)
  truthy (str s) = not (s =s= "")
  truthy _ = true

  -- Whether `manifest.section.key` is there and not falsy.
  abbrev pub declares : Json N → String → String → Bool
  declares manifest section key =
      truthy (prop manifest section) && truthy (prop (prop manifest section) key)

  abbrev pub has_base : Json N → Bool
  has_base manifest =
      declares manifest "endpoints" "invoke"
      && truthy (prop manifest "tool")
      && truthy (prop manifest "actions")
      && not (is_empty_array (prop manifest "actions"))

  abbrev pub has_market : Json N → Bool
  has_market manifest =
      truthy (prop manifest "pricing")
      && truthy (prop (prop manifest "endpoints") "billing")
      && truthy (prop (prop manifest "endpoints") "subscribe")

  abbrev pub has_trust : Json N → Bool
  has_trust manifest =
      declares manifest "trust" "publisher_verified" && truthy (prop manifest "data_policy")

  abbrev pub has_collaboration : Json N → Bool
  has_collaboration manifest = declares manifest "collaboration" "supports_concurrent_agents"

  abbrev pub has_audit : Json N → Bool
  has_audit manifest =
      (truthy (prop (prop manifest "trust") "soc2_type_ii")
        || truthy (prop (prop manifest "trust") "iso_27001"))
      && truthy (prop manifest "insurance")

  unfoldable pub infer_conformance_level : Json N → Level
  infer_conformance_level manifest =
      raise_level (has_base manifest) (has_market manifest) (has_trust manifest)
        (has_collaboration manifest) (has_audit manifest)

  -- `v === text`
  abbrev pub is_text : Json N → String → Bool
  is_text (str s) t = s =s= t
  is_text _ t = false

  unfoldable pub expected_previous : Json N → String
  expected_previous r = "sha256:" +s host.sha256_hex (host.stringify r)

  -- The rounds from the second on; `r` is the receipt before.
  unfoldable pub chain_problems : ℕ → Json N → List (Json N) → List Problem
  chain_problems i r [] = []
  chain_problems i r (s ∷ rest) =
      let later = chain_problems (suc i) s rest in
      if is_text (prop s "previous_receipt_hash") (expected_previous r)
      then later
      else chain_broken i ∷ later

  unfoldable pub validate_receipt_chain : List (Json N) → List Problem
  validate_receipt_chain [] = []
  validate_receipt_chain (r ∷ rest) =
      let later = chain_problems 1 r rest in
      if is_text (prop r "previous_receipt_hash") "genesis" then later else no_genesis ∷ later
