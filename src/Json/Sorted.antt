-- ===== src/Json/Sorted.antt =====
-- Sorting entries by their keys, in the order `before`.
use text.Mathlib.TextEquality.{Char-path}
use oap_spec.Prelude.{◌≡◌, ◌≢◌, refl, ap, ◌∙◌, sym, String, true, false, List, [], ◌∷◌, arith}
use mathlib.Core.List.{Permᴰ}
use mathlib.Core.Path.{subst, ap₂}
use oap_spec.Json.{before, insert_key, sort_keys}

pub before_total : (s t : String) → before s t ≡ false → before t s ≡ true
unfolding before
before_total String.[] t h = cc
before_total (String.◌∷◌ c s) String.[] h = refl
before_total (String.◌∷◌ c s) (String.◌∷◌ d t) h = ground (arith, before_total s t)

pub before_trans : (s t u : String) → before s t ≡ true → before t u ≡ true → before s u ≡ true
unfolding before
before_trans String.[] t u h k = refl
before_trans (String.◌∷◌ c s) String.[] u h k = cc
before_trans (String.◌∷◌ c s) (String.◌∷◌ d t) String.[] h k = cc
before_trans (String.◌∷◌ c s) (String.◌∷◌ d t) (String.◌∷◌ e u) h k =
    ground (arith, before_trans s t u)

pub before_antisymm : (s t : String) → before s t ≡ true → before t s ≡ true → s ≡ t
unfolding before
before_antisymm String.[] String.[] h k = refl
before_antisymm String.[] (String.◌∷◌ d t) h k = cc
before_antisymm (String.◌∷◌ c s) String.[] h k = cc
before_antisymm (String.◌∷◌ c s) (String.◌∷◌ d t) h k =
    cc (Char-path c d (ground arith), before_antisymm s t (ground arith) (ground arith))

module _ {ℓ} {A : Type ℓ} where
  insert_key_comm :
      (k j : String) (v w : A) (l : List (String × A))
      → k ≢ j
      → insert_key (k, v) (insert_key (j, w) l) ≡ insert_key (j, w) (insert_key (k, v) l)
  unfolding insert_key
  insert_key_comm k j v w [] ne = ground (arith, before_total k j, before_antisymm k j)
  insert_key_comm k j v w ((i, x) ∷ l) ne = ground (
    arith,
    before_total k j,
    before_antisymm k j,
    before_total k i,
    before_total j i,
    before_antisymm k i,
    before_antisymm j i,
    before_trans k j i,
    before_trans j k i,
    before_trans k i j,
    before_trans j i k,
    insert_key_comm k j v w l ne,
  )

  abbrev pub IsFresh : String → List (String × A) → Type 0
  IsFresh k [] = Unit
  IsFresh k ((j, _) ∷ l) = (k ≢ j) × IsFresh k l

  -- No key stands twice: what a JavaScript object guarantees of its entries.
  abbrev pub Distinct : List (String × A) → Type 0
  Distinct [] = Unit
  Distinct ((k, _) ∷ l) = IsFresh k l × Distinct l

  IsFresh-perm :
      {xs ys : List (String × A)} (k : String) → Permᴰ xs ys → IsFresh k xs → IsFresh k ys
  IsFresh-perm k Permᴰ.nil f = tt
  IsFresh-perm k (Permᴰ.cons e p) f = ((λ q. f.0 (q ∙ ap (λ x. x.0) (sym e))), IsFresh-perm k p f.1)
  IsFresh-perm k (Permᴰ.swap e e') f =
      ((λ q. f.1.0 (q ∙ ap (λ x. x.0) (sym e'))), ((λ q. f.0 (q ∙ ap (λ x. x.0) (sym e))), f.1.1))
  IsFresh-perm k (Permᴰ.trans p q) f = IsFresh-perm k q (IsFresh-perm k p f)

  pub Distinct-perm : {xs ys : List (String × A)} → Permᴰ xs ys → Distinct xs → Distinct ys
  Distinct-perm Permᴰ.nil d = tt
  Distinct-perm (Permᴰ.cons {l₂} e p) d =
      (subst (λ x. IsFresh x.0 l₂) e (IsFresh-perm _ p d.0), Distinct-perm p d.1)
  Distinct-perm (Permᴰ.swap {l} e e') d = (
    (
      (λ q. d.0.0 (ap (λ x. x.0) e ∙ sym q ∙ ap (λ x. x.0) (sym e'))),
      subst (λ x. IsFresh x.0 l) e' d.1.0,
    ),
    (subst (λ x. IsFresh x.0 l) e d.0.1, d.1.1),
  )
  Distinct-perm (Permᴰ.trans p q) d = Distinct-perm q (Distinct-perm p d)

  pub sort_keys-perm :
      {xs ys : List (String × A)} → Permᴰ xs ys → Distinct xs → sort_keys xs ≡ sort_keys ys
  unfolding sort_keys
  sort_keys-perm Permᴰ.nil d = refl
  sort_keys-perm (Permᴰ.cons e p) d = ap₂ insert_key e (sort_keys-perm p d.1)
  sort_keys-perm (Permᴰ.swap {a} {b} {l} e e') d =
      insert_key_comm a.0 b.0 a.1 b.1 (sort_keys l) d.0.0
      ∙ ap₂ (λ x y. insert_key x (insert_key y (sort_keys l))) e' e
  sort_keys-perm (Permᴰ.trans p q) d = sort_keys-perm p d ∙ sort_keys-perm q (Distinct-perm p d)
