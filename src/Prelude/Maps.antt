-- ===== src/Prelude/Maps.antt =====
-- A Map with texts for keys, as the list of its entries in the order in which they were first set.
use Prim.Native.String.{String}
use mathlib.Core.Path.{◌≡◌, refl}
use mathlib.Core.Bool.{false}
use mathlib.Core.Option.{Option, none, some}
use mathlib.Core.List.{List, [], ◌∷◌}
use native.Mathlib.Omega.{arith}
use text.Mathlib.Text.{◌==◌ as ◌=s=◌}
use text.Mathlib.TextEquality.{eq_iff}
use text.Mathlib.TextPositions.{eq_refl}
use oap_spec.Prelude.Tests.{if◌then◌else◌}

module _ {ℓ} {A : Type ℓ} where
  abbrev pub lookup : String → List (String × A) → Option A
  lookup k [] = none
  lookup k ((j, v) ∷ rest) = if j =s= k then some v else lookup k rest

  -- Map.prototype.set: in place, or at the end
  unfoldable pub store : String → A → List (String × A) → List (String × A)
  store k v [] = (k, v) ∷ []
  store k v ((j, w) ∷ rest) = if j =s= k then (k, v) ∷ rest else (j, w) ∷ store k v rest

  pub lookup-store : (k : String) (c : List (String × A)) (v : A) → lookup k (store k v c) ≡ some v
  unfolding store
  lookup-store k [] v = rw (eq_refl k) refl
  lookup-store k ((j, w) ∷ c) v = ground (arith, eq_refl k, lookup-store k c v)

  pub lookup-store_ne :
      (k j : String) (c : List (String × A)) (v : A)
      → (j =s= k) ≡ false
      → lookup k (store j v c) ≡ lookup k c
  unfolding store
  lookup-store_ne k j [] v ne = rw ne refl
  lookup-store_ne k j ((i, w) ∷ c) v ne =
      ground (arith, lookup-store_ne k j c v ne, (eq_iff i j).0, (eq_iff i k).0, (eq_iff j k).0)
