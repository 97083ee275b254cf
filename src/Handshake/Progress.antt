-- ===== src/Handshake/Progress.antt =====
-- When the handshake commits to a convention (reference/aht/three-tier.js).
use mathlib.Core.Path.{subst}
use oap_spec.Prelude.{
  ◌+◌, ◌*◌, String, true, false, Option, none, some, List, [], ◌∷◌, ◌≡◌, ◌≢◌, ◌⊎◌, inl, inr, refl,
  sym, ap, arith, ◌=s=◌, eq_iff, length, ltb, if◌then◌else◌, Bool-cases,
}
use oap_spec.Server.Teamwork.{includes}
use oap_spec.Handshake.{
  Peer, Setting, Outcome, first_tier, committed, TierUsed, tier1_3, tier2_3, select,
}
use oap_spec.Handshake.Selection.{
  tier1_receipt, same_as, provisional, adversaries, enlarged, committed_to, third_tier,
  run_handshake,
}
use oap_spec.Handshake.Endings.{worst_of, run_handshake-cases, provisional-real}
use oap_spec.Handshake.Choice.{includes-after}

ne-null :
    (c : String) (keys : List String)
    → includes keys c ≡ true
    → includes keys "null" ≡ false
    → (c =s= "null") ≡ false
ne-null c keys h k = elim (Bool-cases (c =s= "null")) [
  | inl e ↦ cc (h, k, ap (includes keys) ((eq_iff c "null").0 e))
  | inr e ↦ e
]

module _ {N : Type 0} (s : Setting N) (worst : String → N) where
  select-from :
      (keys : List String) (b : String) (v : N)
      → (c : String) × (w : N) × (select s worst keys (some (b, v)) ≡ some (c, w))
        × ((b ≡ c) ⊎ (includes keys c ≡ true))
  unfolding select
  select-from [] b v = (b, v, refl, inl refl)
  select-from (d ∷ keys) b v = elim (Bool-cases (s.num_lt (worst d) v)) [
    | inl l ↦
        let (c, w, e, m) = select-from keys d (worst d) in
        (c, w, ground (arith, l, e), inr (includes-after d keys c m))
    | inr l ↦
        let (c, w, e, m) = select-from keys b v in
        (
          c,
          w,
          ground (arith, l, e),
          elim m [ inl p ↦ inl p | inr i ↦ inr (includes-after d keys c (inr i)) ],
        )
  ]

  select-total :
      ((c : String) → s.is_finite (worst c) ≡ true)
      → (keys : List String) → keys ≢ []
      → (c : String) × (w : N) × (select s worst keys none ≡ some (c, w)) × (includes keys c ≡ true)
  unfolding select
  select-total fin [] n = absurd (n refl)
  select-total fin (d ∷ keys) n =
      let (c, w, e, m) = select-from keys d (worst d) in
      (c, w, ground (arith, fin d, e), includes-after d keys c m)

module _ {N : Type 0} (s : Setting N) (self : Peer) (peers : List Peer) where
  -- The handshake commits, in the first tier or in the third.
  abbrev pub Commits : Outcome N → Type 0
  Commits o =
      (c : String) × ((o ≡ first_tier c)
        ⊎ ((t : TierUsed) × (w : N) × (r : Option String) × (o ≡ committed c t w r)))

  module _ (fin : (c : String) → s.is_finite (worst_of s self peers c) ≡ true) where
    third_tier-Commits :
        (feasible : List String)
        → feasible ≢ []
        → includes feasible "null" ≡ false
        → Commits (third_tier s self peers feasible)
    unfolding third_tier committed_to
    third_tier-Commits feasible n z =
        let (c, w, e, m) = select-total s (worst_of s self peers) fin feasible n in
        let q = ne-null c feasible m z in
        (
          c,
          inr (
            if same_as s self peers (provisional s self peers) c then tier1_3 else tier2_3,
            w,
            tier1_receipt s self peers,
            ground (arith, e, q),
          ),
        )

    move : {o o' : Outcome N} → o ≡ o' → Commits o' → Commits o
    move e h = subst Commits (sym e) h

    -- If three times the adversarial peers are fewer than all, the agent included, worst cases are finite,
    -- and the enlarged set of conventions is not empty and has no null, then the handshake commits.
    pub run_handshake-Commits :
        ltb (length peers + 1) (3 * length (adversaries s self peers) + 1) ≡ false
        → enlarged s self peers ≢ []
        → includes (enlarged s self peers) "null" ≡ false
        → Commits (run_handshake s self peers)
    run_handshake-Commits b n z = elim (run_handshake-cases s self peers) [
      | inl a ↦ cc (b, a.0)
      | inr (inl e) ↦ move e (third_tier-Commits (enlarged s self peers) n z)
      | inr (inr (p, q, inl e)) ↦ (p, inl e)
      | inr (inr (p, q, inr e)) ↦ move e (
          third_tier-Commits (p ∷ []) (λ h. cc h)
            (ground (arith, provisional-real s self peers p q)))
    ]
