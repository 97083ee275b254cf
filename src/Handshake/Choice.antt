-- ===== src/Handshake/Choice.antt =====
-- What the handshake commits to (reference/aht/three-tier.js).
use mathlib.Core.Path.{subst}
use oap_spec.Prelude.{
  String, true, false, Option, none, some, List, [], ◌∷◌, ◌≡◌, ◌⊎◌, inl, inr, refl, sym, ap, ◌∙◌,
  arith, eq_refl, Bool-cases, All,
}
use oap_spec.Server.Teamwork.{includes}
use oap_spec.Server.Convention.{IsFirstCommon, least_text-IsFirstCommon}
use oap_spec.Handshake.{Peer, Setting, first_tier, committed, TierUsed, select}
use oap_spec.Handshake.Selection.{spaces, enlarged, third_tier, run_handshake}
use oap_spec.Handshake.Endings.{
  worst_of, IsFeasible, provisional-some, third_tier-some, third_tier-ne-first, run_handshake-cases,
}

pub includes-after :
    (d : String) (keys : List String) (c : String)
    → (d ≡ c) ⊎ (includes keys c ≡ true)
    → includes (d ∷ keys) c ≡ true
includes-after d keys c h = elim h [
  | inl p ↦ ground (arith, eq_refl d, p)
  | inr i ↦ ground (arith, i)
]

module _ {N : Type 0} (s : Setting N) where
  -- None of the conventions has a finite worst case below `w`.
  abbrev IsLeast : (String → N) → N → List String → Type 0
  IsLeast worst w keys = All (λ d. s.is_finite (worst d) ≡ true → s.num_lt (worst d) w ≡ false) keys

  -- The choice is one of the list, with its worst case, and no other of the list has a lower one.
  pub record IsBest (worst : String → N) (keys : List String) (c : String) (w : N) : Type 0 where
    pub member : includes keys c ≡ true
    pub regret : w ≡ worst c
    pub least : IsLeast worst w keys

module _ {N : Type 0} (s : Setting N)
    (asym : (a b : N) → s.num_lt a b ≡ true → s.num_lt b a ≡ false)
    (trans : (a b c : N) → s.num_lt a b ≡ false → s.num_lt b c ≡ false → s.num_lt a c ≡ false) where
  irrefl : (a : N) → s.num_lt a a ≡ false
  irrefl a = elim (Bool-cases (s.num_lt a a)) [ inl e ↦ asym a a e | inr e ↦ e ]

  IsLeast-lower :
      (worst : String → N) (v w : N) (keys : List String)
      → s.num_lt v w ≡ true
      → IsLeast s worst w keys
      → IsLeast s worst v keys
  IsLeast-lower worst v w [] h l = tt
  IsLeast-lower worst v w (d ∷ keys) h l =
      (λ f. trans (worst d) w v (l.0 f) (asym v w h), IsLeast-lower worst v w keys h l.1)

  select-some :
      (worst : String → N) (keys : List String) (b : String) (v : N) (c : String) (w : N)
      → v ≡ worst b
      → select s worst keys (some (b, v)) ≡ some (c, w)
      → ((b ≡ c) ⊎ (includes keys c ≡ true))
        × (w ≡ worst c)
        × IsLeast s worst w keys
        × (s.num_lt v w ≡ false)
  unfolding select
  select-some worst [] b v c w e h =
      let p : b ≡ c = ground (arith, h) in
      let q : v ≡ w = ground (arith, h) in
      (inl p, sym q ∙ e ∙ ap worst p, tt, subst (λ z. s.num_lt v z ≡ false) q (irrefl v))
  select-some worst (d ∷ keys) b v c w e h = elim (Bool-cases (s.num_lt (worst d) v)) [
    | inl l ↦
        let (m, r, k, n) = select-some worst keys d (worst d) c w refl (ground (arith, l, h)) in
        (
          inr (includes-after d keys c m),
          r,
          (λ f. n, k),
          trans v (worst d) w (asym (worst d) v l) n,
        )
    | inr l ↦
        let (m, r, k, n) = select-some worst keys b v c w e (ground (arith, l, h)) in
        (
          elim m [ inl p ↦ inl p | inr i ↦ inr (ground (arith, i)) ],
          r,
          (λ f. trans (worst d) v w l n, k),
          n,
        )
  ]

  select-IsBest :
      (worst : String → N) (keys : List String) (c : String) (w : N)
      → select s worst keys none ≡ some (c, w)
      → IsBest s worst keys c w
  unfolding select
  select-IsBest worst [] c w h = cc
  select-IsBest worst (d ∷ keys) c w h = elim (Bool-cases (s.is_finite (worst d))) [
    | inl f ↦
        let (m, r, k, n) = select-some worst keys d (worst d) c w refl (ground (arith, f, h)) in
        record { member = includes-after d keys c m; regret = r; least = (λ g. n, k) }
    | inr f ↦
        let ih = select-IsBest worst keys c w (ground (arith, f, h)) in
        record {
          member = includes-after d keys c (inr ih.member);
          regret = ih.regret;
          least = (λ g. cc (f, g), ih.least);
        }
  ]

  module _ (self : Peer) (peers : List Peer) where
    third_tier-IsBest :
        (feasible : List String) (c : String) (t : TierUsed) (w : N) (r : Option String)
        → third_tier s self peers feasible ≡ committed c t w r
        → IsBest s (worst_of s self peers) feasible c w
    third_tier-IsBest feasible c t w r h =
        select-IsBest (worst_of s self peers) feasible c w
          (third_tier-some s self peers feasible c t w r h)

    -- A convention that the third tier commits to is one of the feasible ones, which are the convention
    -- of the first tier or else those inferred of observed peers and one's own, is told with its worst
    -- case after trimming, and no feasible convention has a lower finite one; where the comparison of
    -- regrets is asymmetric and its failure transitive.
    pub committed-IsBest :
        (c : String) (t : TierUsed) (w : N) (r : Option String)
        → run_handshake s self peers ≡ committed c t w r
        → (feasible : List String) × IsFeasible s self peers feasible
          × IsBest s (worst_of s self peers) feasible c w
    committed-IsBest c t w r h = elim (run_handshake-cases s self peers) [
      | inl a ↦ cc (a.1, h)
      | inr (inl e) ↦ (
        enlarged s self peers,
        inl refl,
        third_tier-IsBest (enlarged s self peers) c t w r (sym e ∙ h),
      )
      | inr (inr (p, n, inl e)) ↦ cc (e, h)
      | inr (inr (p, n, inr e)) ↦
          (p ∷ [], inr (p, n, refl), third_tier-IsBest (p ∷ []) c t w r (sym e ∙ h))
    ]

-- A handshake that ends in the first tier commits to a convention that is common to the spaces of the
-- agent and of all publishing peers, and that comes before every other such convention.
pub first_tier-IsFirstCommon :
    {N : Type 0} (s : Setting N) (self : Peer) (peers : List Peer) (c : String)
    → run_handshake s self peers ≡ first_tier c
    → IsFirstCommon c (spaces s self peers)
first_tier-IsFirstCommon s self peers c h = elim (run_handshake-cases s self peers) [
  | inl a ↦ cc (a.1, h)
  | inr (inl e) ↦ absurd (third_tier-ne-first s self peers (enlarged s self peers) c (sym e ∙ h))
  | inr (inr (p, n, inl e)) ↦
      let q : p ≡ c = cc (sym e ∙ h) in
      least_text-IsFirstCommon (spaces s self peers) c
        (provisional-some s self peers p n ∙ ap some q)
  | inr (inr (p, n, inr e)) ↦ absurd (third_tier-ne-first s self peers (p ∷ []) c (sym e ∙ h))
]
