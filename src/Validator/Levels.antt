-- ===== src/Validator/Levels.antt =====
-- What each inferred conformance level requires.
use oap_spec.Prelude.{ℕ, suc, Bool, true, false, List, [], ◌∷◌, ◌≡◌, refl}
use oap_spec.Json.{Json}
use oap_spec.Validator.{
  Host, Level, l0, l1, l2, l3, l4, l5, raise_level, has_base, has_market, has_trust,
  has_collaboration, has_audit, infer_conformance_level,
}

abbrev pub rank : Level → ℕ
rank l0 = 0
rank l1 = 1
rank l2 = 2
rank l3 = 3
rank l4 = 4
rank l5 = 5

-- How many of the first requirements are met, up to the first that is not.
abbrev pub met_in_a_row : List Bool → ℕ
met_in_a_row [] = 0
met_in_a_row (false ∷ _) = 0
met_in_a_row (true ∷ rest) = suc (met_in_a_row rest)

rank-raise_level :
    (b m t c a : Bool) → rank (raise_level b m t c a) ≡ met_in_a_row (b ∷ m ∷ t ∷ c ∷ a ∷ [])
unfolding raise_level
rank-raise_level false m t c a = refl
rank-raise_level true false false c a = refl
rank-raise_level true false true c a = refl
rank-raise_level true true false c a = refl
rank-raise_level true true true false a = refl
rank-raise_level true true true true false = refl
rank-raise_level true true true true true = refl

module _ {N : Type 0} (host : Host N) (manifest : Json N) where
  -- The level is the number of requirements (base, market, trust, collaboration, audit) that are met
  -- in a row: no later one makes up for one that is missing.
  pub rank-infer_conformance_level :
      rank (infer_conformance_level host manifest)
      ≡ met_in_a_row (
          has_base host manifest
          ∷ has_market host manifest
          ∷ has_trust host manifest
          ∷ has_collaboration host manifest
          ∷ has_audit host manifest
          ∷ [])
  unfolding infer_conformance_level
  rank-infer_conformance_level = rank-raise_level _ _ _ _ _
