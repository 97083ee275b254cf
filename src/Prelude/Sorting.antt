-- ===== src/Prelude/Sorting.antt =====
-- `sort` with a comparison: the stable sort of the language, as insertions from the last element on.
use mathlib.Core.Path.{◌≡◌, refl}
use mathlib.Core.Bool.{Bool, true, false}
use mathlib.Core.List.{List, [], ◌∷◌}
use mathlib.Core.Logic.{inl, inr}
use native.Mathlib.Omega.{arith}
use Prim.Native.Nat.{suc}
use oap_spec.Prelude.Tests.{if◌then◌else◌, Bool-cases}
use oap_spec.Prelude.Lists.{All, All-map, length}

module _ {ℓ} {A : Type ℓ} (behind : A → A → Bool) where
  -- `behind a b`: `a` has to stand behind `b`.
  unfoldable pub insert_by : A → List A → List A
  insert_by a [] = a ∷ []
  insert_by a (b ∷ bs) = let rest = insert_by a bs in if behind a b then b ∷ rest else a ∷ b ∷ bs

  unfoldable pub sort_by : List A → List A
  sort_by [] = []
  sort_by (a ∷ as') = insert_by a (sort_by as')

  pub length-insert_by : (a : A) (bs : List A) → length (insert_by a bs) ≡ suc (length bs)
  unfolding insert_by
  length-insert_by a [] = refl
  length-insert_by a (b ∷ bs) = ground (arith, length-insert_by a bs)

  pub length-sort_by : (as' : List A) → length (sort_by as') ≡ length as'
  unfolding sort_by
  length-sort_by [] = refl
  length-sort_by (a ∷ as') = ground (arith, length-insert_by a (sort_by as'), length-sort_by as')

  -- Each element has to stand behind none that follows it.
  abbrev pub IsOrdered : List A → Type 0
  IsOrdered [] = Unit
  IsOrdered (a ∷ bs) = All (λ b. behind a b ≡ false) bs × IsOrdered bs

module _ {ℓ κ} {A : Type ℓ} (behind : A → A → Bool) (P : A → Type κ) where
  pub insert_by-All : (a : A) (bs : List A) → P a → All P bs → All P (insert_by behind a bs)
  unfolding insert_by
  insert_by-All a [] p h = (p, tt)
  insert_by-All a (b ∷ bs) p h = elim (Bool-cases (behind a b)) [
    | inl e ↦ rw e (h.0, insert_by-All a bs p h.1)
    | inr e ↦ rw e (p, h)
  ]

  pub sort_by-All : (as' : List A) → All P as' → All P (sort_by behind as')
  unfolding sort_by
  sort_by-All [] h = tt
  sort_by-All (a ∷ as') h = insert_by-All a (sort_by behind as') h.0 (sort_by-All as' h.1)

module _ {ℓ} {A : Type ℓ} (behind : A → A → Bool)
    (asym : (a b : A) → behind a b ≡ true → behind b a ≡ false)
    (trans : (a b c : A) → behind a b ≡ false → behind b c ≡ false → behind a c ≡ false) where
  insert_by-IsOrdered :
      (a : A) (bs : List A) → IsOrdered behind bs → IsOrdered behind (insert_by behind a bs)
  unfolding insert_by
  insert_by-IsOrdered a [] h = (tt, tt)
  insert_by-IsOrdered a (b ∷ bs) h = elim (Bool-cases (behind a b)) [
    | inl e ↦ rw e (
      insert_by-All behind (λ x. behind b x ≡ false) a bs (asym a b e) h.0,
      insert_by-IsOrdered a bs h.1,
    )
    | inr e ↦ rw e ((e, All-map (λ x p. trans a b x e p) bs h.0), h)
  ]

  pub sort_by-IsOrdered : (as' : List A) → IsOrdered behind (sort_by behind as')
  unfolding sort_by
  sort_by-IsOrdered [] = tt
  sort_by-IsOrdered (a ∷ as') = insert_by-IsOrdered a (sort_by behind as') (sort_by-IsOrdered as')
