-- ===== src/Server/Convention.antt =====
-- Which convention is chosen at the first tier (reference/server/server.js).
use mathlib.Core.Path.{subst}
use oap_spec.Prelude.{
  String, Bool, true, none, some, List, [], ◌∷◌, ◌≡◌, ◌↔◌, ◌⊎◌, refl, sym, ap, ◌∙◌, arith, ◌=s=◌,
  eq_iff, eq_refl, all, Bool-cases, Option-cases, inl, inr, and-true,
}
use oap_spec.Json.{before}
use oap_spec.Json.Sorted.{before_total, before_trans, before_antisymm}
use oap_spec.Server.Teamwork.{
  tier1, includes, least_text, common_to, intersection, choose_convention,
}

-- Every follower's space has the convention.
abbrev pub IsCommon : String → List (List String) → Type 0
IsCommon k sets = all (λ s. includes s k) sets ≡ true

-- The convention is common, and no common one comes before it.
pub record IsFirstCommon (k : String) (sets : List (List String)) : Type 0 where
  pub common : IsCommon k sets
  pub first : (u : String) → IsCommon u sets → before k u ≡ true

before_refl : (s : String) → before s s ≡ true
before_refl s = elim (Bool-cases (before s s)) [ inl e ↦ e | inr e ↦ before_total s s e ]

includes-cons :
    (k x : String) (xs : List String)
    → includes (x ∷ xs) k ≡ true
    → (x ≡ k) ⊎ (includes xs k ≡ true)
includes-cons k x xs h = elim (Bool-cases (x =s= k)) [
  | inl e ↦ inl ((eq_iff x k).0 e)
  | inr e ↦ inr (ground (arith, e))
]

abbrev IsFirstOf : String → List String → Type 0
IsFirstOf k xs = (includes xs k ≡ true) × ((u : String) → includes xs u ≡ true → before k u ≡ true)

IsFirstOf-head :
    (x : String) (xs : List String) (k : String)
    → x ≡ k
    → ((u : String) → includes xs u ≡ true → before x u ≡ true)
    → IsFirstOf k (x ∷ xs)
IsFirstOf-head x xs k e h = (
  ground (arith, eq_refl x, e),
  λ u m. elim (includes-cons u x xs m) [ inl p ↦ cc (before_refl x, e, p) | inr q ↦ cc (h u q, e) ],
)

IsFirstOf-tail :
    (x : String) (xs : List String) (k : String)
    → before k x ≡ true
    → IsFirstOf k xs
    → IsFirstOf k (x ∷ xs)
IsFirstOf-tail x xs k e h = (
  ground (arith, h.0),
  λ u m. elim (includes-cons u x xs m) [ inl p ↦ cc (e, p) | inr q ↦ h.1 u q ],
)

least_text-none : (xs : List String) → least_text xs ≡ none → xs ≡ []
unfolding least_text
least_text-none [] h = refl
least_text-none (x ∷ xs) h = ground arith

-- What the least of a list is.
least_text-some : (xs : List String) (k : String) → least_text xs ≡ some k → IsFirstOf k xs
unfolding least_text
least_text-some [] k h = cc
least_text-some (x ∷ xs) k h = elim (Option-cases (least_text xs)) [
  | inl e ↦
      IsFirstOf-head x xs k (ground arith)
        (λ u m. cc (m, ap (λ ys. includes ys u) (least_text-none xs e)))
  | inr (t, e) ↦
      let ih = least_text-some xs t e in
      elim (Bool-cases (before x t)) [
        | inl b ↦ IsFirstOf-head x xs k (ground arith) (λ u m. before_trans x t u b (ih.1 u m))
        | inr b ↦
            let p : t ≡ k = ground arith in
            IsFirstOf-tail x xs k (cc (before_total x t b, p)) (subst (λ z. IsFirstOf z xs) p ih)
      ]
]

includes-common_to :
    (sets : List (List String)) (xs : List String) (k : String)
    → includes (common_to sets xs) k ≡ true
    → (includes xs k ≡ true) × IsCommon k sets
unfolding common_to
includes-common_to sets [] k h = cc
includes-common_to sets (x ∷ xs) k h = elim (Bool-cases (all (λ s. includes s x) sets)) [
  | inl c ↦ elim (includes-cons k x (common_to sets xs) (ground (arith, c, h))) [
    | inl p ↦ (ground (arith, eq_refl x, p), subst (λ z. IsCommon z sets) p c)
    | inr q ↦ let ih = includes-common_to sets xs k q in (ground (arith, ih.0), ih.1)
  ]
  | inr c ↦ let ih = includes-common_to sets xs k (ground arith) in (ground (arith, ih.0), ih.1)
]

common_to-includes :
    (sets : List (List String)) (xs : List String) (k : String)
    → includes xs k ≡ true
    → IsCommon k sets
    → includes (common_to sets xs) k ≡ true
unfolding common_to
common_to-includes sets [] k h c = cc
common_to-includes sets (x ∷ xs) k h c = elim (includes-cons k x xs h) [
  | inl p ↦
      let d : IsCommon x sets = subst (λ z. IsCommon z sets) (sym p) c in
      ground (arith, eq_refl x, p, d)
  | inr q ↦ ground (arith, common_to-includes sets xs k q c)
]

-- The intersection holds what is common to all spaces.
includes-intersection :
    (s : List String) (sets : List (List String)) (k : String)
    → includes (intersection (s ∷ sets)) k ≡ true ↔ IsCommon k (s ∷ sets)
unfolding intersection
includes-intersection s sets k = (
  λ h. (includes-common_to (s ∷ sets) s k h).1,
  λ c.
      common_to-includes (s ∷ sets) s k (and-true (includes s k) (all (λ t. includes t k) sets) c).0
        c,
)

least_text-tier1 :
    (sets : List (List String)) (has_peers : Bool) (k : String)
    → choose_convention sets has_peers ≡ some (k, tier1)
    → least_text (intersection sets) ≡ some k
unfolding choose_convention
least_text-tier1 sets has_peers k h = ground arith

-- There is a least text of the intersection, and no two texts both come first.
least_text-first :
    (s : List String) (sets : List (List String)) (k : String)
    → IsFirstCommon k (s ∷ sets)
    → least_text (intersection (s ∷ sets)) ≡ some k
least_text-first s sets k h = elim (Option-cases (least_text (intersection (s ∷ sets)))) [
  | inl e ↦
      let m = (includes-intersection s sets k).1 h.common in
      cc (m, ap (λ ys. includes ys k) (least_text-none (intersection (s ∷ sets)) e))
  | inr (t, e) ↦
      let l = least_text-some (intersection (s ∷ sets)) t e in
      let p =
        before_antisymm t k (l.1 k ((includes-intersection s sets k).1 h.common))
          (h.first t ((includes-intersection s sets t).0 l.0)) in
      e ∙ ap some p
]

-- The least text of an intersection is the first common one.
pub least_text-IsFirstCommon :
    (sets : List (List String)) (k : String)
    → least_text (intersection sets) ≡ some k
    → IsFirstCommon k sets
unfolding intersection least_text
least_text-IsFirstCommon [] k h = cc
least_text-IsFirstCommon (s ∷ sets) k h =
    let l = least_text-some (intersection (s ∷ sets)) k h in
    record {
      common = (includes-intersection s sets k).0 l.0;
      first = λ u c. l.1 u ((includes-intersection s sets u).1 c);
    }

-- With at least one space, a convention is chosen at the first tier exactly if it is common to all
-- spaces and comes before every other common one; the order of the spaces plays no part.
pub choose_convention-tier1_iff :
    (s : List String) (sets : List (List String)) (has_peers : Bool) (k : String)
    → choose_convention (s ∷ sets) has_peers ≡ some (k, tier1) ↔ IsFirstCommon k (s ∷ sets)
unfolding choose_convention
choose_convention-tier1_iff s sets has_peers k = (
  λ h. least_text-IsFirstCommon (s ∷ sets) k (least_text-tier1 (s ∷ sets) has_peers k h),
  λ h. ground (arith, least_text-first s sets k h),
)
