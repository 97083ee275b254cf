-- ===== src/Handshake/Selection.antt =====
-- `runHandshake` (reference/aht/three-tier.js).
use oap_spec.Prelude.{
  ◌+◌, ◌*◌, String, Bool, true, false, not, ◌&&◌, Option, none, some, List, [], ◌∷◌, ◌++◌, map,
  ◌=s=◌, length, ltb, if◌then◌else◌,
}
use oap_spec.Server.Teamwork.{least_text, intersection}
use oap_spec.Handshake.{
  Peer, publishing, observed, adversarial, Distribution, Setting, Outcome, aborted, first_tier,
  fallback_only, committed, tier1_3, tier2_3, of_class, unless_null, add_keys, posteriors,
  max_expected_regret, inferred, worst_case, select,
}

module _ {N : Type 0} (s : Setting N) (self : Peer) (peers : List Peer) where
  -- The spaces of NP.
  abbrev pub spaces : List (List String)
  spaces = map (λ p. p.convention_space) (of_class publishing peers ++ self ∷ [])

  -- The convention of the first tier's receipt.
  unfoldable pub tier1_receipt : Option String
  tier1_receipt = least_text (intersection spaces)

  abbrev pub provisional : Option String
  provisional = elim tier1_receipt [ none ↦ none | some c ↦ unless_null c ]

  abbrev pub observers : List Peer
  observers = of_class observed peers

  abbrev pub adversaries : List Peer
  adversaries = of_class adversarial peers

  abbrev pub posterior : List (String × Distribution N)
  posterior = posteriors s observers []

  -- The provisional convention has an acceptable regret.
  abbrev pub is_acceptable : String → Bool
  is_acceptable c =
      s.num_le (max_expected_regret s c posterior s.nought observers) s.regret_tolerance

  unfoldable pub enlarged : List String
  enlarged = add_keys self.convention_space (inferred s posterior observers [])

  abbrev pub is_nil : List Peer → Bool
  is_nil [] = true
  is_nil (_ ∷ _) = false

  abbrev pub same_as : Option String → String → Bool
  same_as none c = false
  same_as (some p) c = not (s.is_falsy_value p) && (p =s= c)

  unfoldable pub committed_to : Option (String × N) → Outcome N
  committed_to none = fallback_only tier1_receipt
  committed_to (some (c, w)) = elim (unless_null c) [
    | none ↦ fallback_only tier1_receipt
    | some c' ↦ committed c' (if same_as provisional c' then tier1_3 else tier2_3) w tier1_receipt
  ]

  -- The selection among the feasible conventions.
  unfoldable pub third_tier : (feasible : List String) → Outcome N
  third_tier feasible =
      committed_to (select s (worst_case s posterior peers (length adversaries)) feasible none)

  unfoldable pub run_handshake : Outcome N
  run_handshake =
      if ltb (length peers + 1) (3 * length adversaries + 1) then aborted else elim provisional [
        | none ↦ third_tier enlarged
        | some c ↦
            if not (is_acceptable c)
            then third_tier enlarged
            else if is_nil observers && is_nil adversaries
            then first_tier c
            else third_tier (c ∷ [])
      ]
