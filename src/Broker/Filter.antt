-- ===== src/Broker/Filter.antt =====
-- `passesConstraints` (reference/match-broker/broker.js).
use oap_spec.Prelude.{
  ℕ, String, Bool, true, false, not, ◌||◌, Option, none, some, List, [], ◌∷◌, ◌=s=◌, ◌==◌, any,
  if◌then◌else◌, ltb,
}
use oap_spec.Broker.{Row}

-- `intent.filters`; a filter that is falsy or missing is "", none or the empty list, and a single
-- jurisdiction is a list of one.
pub record Filters (N : Type 0) : Type 0 where
  pub jurisdiction : Option (List String)
  pub risk_class : String
  pub min_conformance_level : Option N
  pub max_cost_usd : Option N
  pub categories : List String

-- `riskOrder[…]`, 0 if it has no such key
unfoldable pub risk_order : String → ℕ
risk_order s =
    if s =s= "low" then 1 else if s =s= "medium" then 2 else if s =s= "high" then 3 else 0

-- `n || d`
abbrev pub or_rank : ℕ → ℕ → ℕ
or_rank n d = if n == 0 then d else n

abbrev pub includes : List String → String → Bool
includes xs s = any (λ x. x =s= s) xs

abbrev pub is_nil {ℓ} : {A : Type ℓ} → List A → Bool
is_nil [] = true
is_nil (_ ∷ _) = false

-- `num_lt` is `<`; `categories_of` is the split at commas, each part trimmed.
module _ {N : Type 0} (num_lt : N → N → Bool) (categories_of : String → List String) where
  unfoldable pub jurisdiction_ok : Option (List String) → List String → Bool
  jurisdiction_ok none provided = true
  jurisdiction_ok (some allowed) [] = true
  jurisdiction_ok (some allowed) (p ∷ ps) =
      any (λ j. includes (p ∷ ps) j || includes (p ∷ ps) "*") allowed

  unfoldable pub risk_ok : String → String → Bool
  risk_ok filter risk_class =
      (filter =s= "")
      || not (ltb (or_rank (risk_order filter) 3) (or_rank (risk_order risk_class) 1))

  unfoldable pub conformance_ok : Option N → N → Bool
  conformance_ok none level = true
  conformance_ok (some least) level = not (num_lt level least)

  unfoldable pub cost_ok : Option N → Option N → Bool
  cost_ok (some most) (some cost) = not (num_lt most cost)
  cost_ok _ _ = true

  unfoldable pub categories_ok : List String → String → Bool
  categories_ok [] text' = true
  categories_ok (c ∷ cs) text' = any (includes (categories_of text')) (c ∷ cs)

  unfoldable pub passes_constraints : Row N → Filters N → Bool
  passes_constraints manifest filters =
      if not (jurisdiction_ok filters.jurisdiction manifest.jurisdictions)
      then false
      else if not (risk_ok filters.risk_class manifest.risk_class)
      then false
      else if not (conformance_ok filters.min_conformance_level manifest.conformance_level)
      then false
      else if not (cost_ok filters.max_cost_usd manifest.avg_cost_usd)
      then false
      else if not (categories_ok filters.categories manifest.categories_text)
      then false
      else true
