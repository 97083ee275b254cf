-- ===== src/Handshake/Endings.antt =====
-- The ways in which a handshake ends (reference/aht/three-tier.js).
use oap_spec.Prelude.{
  ◌+◌, ◌*◌, String, true, false, ◌&&◌, Option, none, some, List, [], ◌∷◌, ◌≡◌, ◌≢◌, ◌⊎◌, inl, inr,
  refl, arith, ◌=s=◌, length, ltb, Bool-cases, Option-cases,
}
use oap_spec.Server.Teamwork.{least_text, intersection}
use oap_spec.Handshake.{Peer, Setting, aborted, first_tier, committed, TierUsed, select, worst_case}
use oap_spec.Handshake.Selection.{
  spaces, tier1_receipt, provisional, observers, adversaries, posterior, is_acceptable, is_nil,
  enlarged, committed_to, third_tier, run_handshake,
}

module _ {N : Type 0} (s : Setting N) (self : Peer) (peers : List Peer) where
  -- The worst case after trimming.
  abbrev pub worst_of : String → N
  worst_of = worst_case s (posterior s self peers) peers (length (adversaries s self peers))

  -- The first tier's convention alone, or the conventions inferred of the observed peers and one's own.
  abbrev pub IsFeasible : List String → Type 0
  IsFeasible keys =
      (keys ≡ enlarged s self peers)
      ⊎ ((p : String) × (provisional s self peers ≡ some p) × (keys ≡ p ∷ []))

  pub provisional-real : (p : String) → provisional s self peers ≡ some p → (p =s= "null") ≡ false
  unfolding tier1_receipt
  provisional-real p n = elim (Option-cases (least_text (intersection (spaces s self peers)))) [
    | inl m ↦ ground (arith, m, n)
    | inr (q, m) ↦ elim (Bool-cases (q =s= "null")) [
      | inl z ↦ ground (arith, m, z, n)
      | inr z ↦ ground (arith, m, z, n)
    ]
  ]

  pub provisional-some :
      (p : String)
      → provisional s self peers ≡ some p
      → least_text (intersection (spaces s self peers)) ≡ some p
  unfolding tier1_receipt
  provisional-some p n = elim (Option-cases (least_text (intersection (spaces s self peers)))) [
    | inl m ↦ ground (arith, m, n)
    | inr (q, m) ↦ elim (Bool-cases (q =s= "null")) [
      | inl z ↦ ground (arith, m, z, n)
      | inr z ↦ ground (arith, m, z, n)
    ]
  ]

  pub third_tier-some :
      (feasible : List String) (c : String) (t : TierUsed) (w : N) (r : Option String)
      → third_tier s self peers feasible ≡ committed c t w r
      → select s
          (worst_case s (posterior s self peers) peers (length (adversaries s self peers)))
          feasible
          none
        ≡ some (c, w)
  unfolding third_tier committed_to
  third_tier-some feasible c t w r h =
      elim (Option-cases (
        select s (worst_case s (posterior s self peers) peers (length (adversaries s self peers)))
          feasible none)) [
            | inl e ↦ ground (arith, e, h)
            | inr ((b, v), e) ↦ elim (Bool-cases (b =s= "null")) [
              | inl n ↦ ground (arith, e, n, h)
              | inr n ↦ ground (arith, e, n, h)
            ]
          ]

  pub third_tier-ne-first :
      (feasible : List String) (c : String) → third_tier s self peers feasible ≢ first_tier c
  unfolding third_tier committed_to
  third_tier-ne-first feasible c h =
      elim (Option-cases (
        select s (worst_case s (posterior s self peers) peers (length (adversaries s self peers)))
          feasible none)) [
            | inl e ↦ ground (arith, e, h)
            | inr ((b, v), e) ↦ elim (Bool-cases (b =s= "null")) [
              | inl n ↦ ground (arith, e, n, h)
              | inr n ↦ ground (arith, e, n, h)
            ]
          ]

  -- What a handshake comes down to.
  abbrev pub Ending : Type 0
  Ending =
      ((ltb (length peers + 1) (3 * length (adversaries s self peers) + 1) ≡ true)
        × (run_handshake s self peers ≡ aborted))
      ⊎ ((run_handshake s self peers ≡ third_tier s self peers (enlarged s self peers))
          ⊎ ((p : String) × (provisional s self peers ≡ some p)
              × ((run_handshake s self peers ≡ first_tier p)
                  ⊎ (run_handshake s self peers ≡ third_tier s self peers (p ∷ [])))))

  pub run_handshake-cases : Ending
  unfolding run_handshake
  run_handshake-cases =
      elim (Bool-cases (ltb (length peers + 1) (3 * length (adversaries s self peers) + 1))) [
        | inl b ↦ inl (b, ground (arith, b))
        | inr b ↦ elim (Option-cases (provisional s self peers)) [
          | inl n ↦ inr (inl (rw (b, n, run_handshake) refl))
          | inr (p, n) ↦ elim (Bool-cases (is_acceptable s self peers p)) [
            | inr a ↦ inr (inl (rw (b, n, a, run_handshake) refl))
            | inl a ↦
                elim (Bool-cases (
                  is_nil s self peers (observers s self peers)
                  && is_nil s self peers (adversaries s self peers))) [
                    | inl z ↦ inr (inr (p, n, inl (rw (b, n, a, z, run_handshake) refl)))
                    | inr z ↦ inr (inr (p, n, inr (rw (b, n, a, z, run_handshake) refl)))
                  ]
          ]
        ]
      ]
