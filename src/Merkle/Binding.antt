-- ===== src/Merkle/Binding.antt =====
-- What a root commits to, and what it does not.
use Prim.Native.String
use Prim.Native.String.{count}
use text.Mathlib.TextLemmas
use mathlib.Core.Bool.{false≢true}
use oap_spec.Prelude.{
  ◌≡◌, ◌≢◌, ◌⊎◌, inl, inr, refl, sym, ap, ◌∙◌, String, true, List, [], ◌∷◌, arith, ◌=s=◌, eq_iff,
  Bool-cases,
}
use oap_spec.Merkle.{
  Position, left, right, Step, merkle_leaf, merkle_node, climb_at, climb, root_from,
  verify_inclusion_proof,
}

-- Two texts with one digest.
abbrev pub Collision : (String → String) → Type 0
Collision sha256 = (a : String) × (b : String) × (a ≢ b) × (sha256 a ≡ sha256 b)

-- The paths have the same length and turn the same way at each step.
abbrev pub SamePlaces : List Step → List Step → Type 0
SamePlaces [] [] = Unit
SamePlaces [] (_ ∷ _) = ⊥
SamePlaces (_ ∷ _) [] = ⊥
SamePlaces (s ∷ path) (t ∷ path') = (s.position ≡ t.position) × SamePlaces path path'

append-eq-append :
    (a b c d : String) → String.◌++◌ a b ≡ String.◌++◌ c d → count a ≡ count c → (a ≡ c) × (b ≡ d)
append-eq-append String.[] b String.[] d e l =
    (refl, sym (TextLemmas.nil-append b) ∙ e ∙ TextLemmas.nil-append d)
append-eq-append String.[] b (String.◌∷◌ y c) d e l =
    absurd (omega (arith, TextLemmas.length-nil, TextLemmas.length-cons y c))
append-eq-append (String.◌∷◌ x a) b String.[] d e l =
    absurd (omega (arith, TextLemmas.length-nil, TextLemmas.length-cons x a))
append-eq-append (String.◌∷◌ x a) b (String.◌∷◌ y c) d e l =
    let (same, rest) =
      TextLemmas.cons-eq-cons.0
        (sym (TextLemmas.cons-append x a b) ∙ e ∙ TextLemmas.cons-append y c d) in
    let (tails, others) =
      append-eq-append a b c d rest
        (omega (arith, TextLemmas.length-cons x a, TextLemmas.length-cons y c)) in
    (cc, others)

append-eq-append_right :
    (a b c d : String) → String.◌++◌ a b ≡ String.◌++◌ c d → count b ≡ count d → (a ≡ c) × (b ≡ d)
append-eq-append_right a b c d e l =
    append-eq-append a b c d e
      (omega (arith, ap count e, TextLemmas.length-append a b, TextLemmas.length-append c d))

module _ (sha256 : String → String) where
  eq_or_Collision : (a b : String) → sha256 a ≡ sha256 b → (a ≡ b) ⊎ Collision sha256
  eq_or_Collision a b e = elim (Bool-cases (a =s= b)) [
    | inl same ↦ inl ((eq_iff a b).0 same)
    | inr other ↦ inr (a, b, (λ p. false≢true (sym other ∙ (eq_iff a b).1 p)), e)
  ]

  module _ (fixed : (s : String) → count (sha256 s) ≡ 64) where
    -- A node's digest fixes its two parts, where the places at which they meet agree.
    climb_at-injective :
        (p : Position) (h h' x y : String)
        → count h ≡ count h'
        → climb_at sha256 p x h ≡ climb_at sha256 p y h'
        → (h ≡ h') ⊎ Collision sha256
    unfolding climb_at merkle_node
    climb_at-injective right h h' x y c e = elim (eq_or_Collision _ _ e) [
      | inl same ↦
          inl (append-eq-append h x h' y (TextLemmas.append_cancel_left "\u{1}" _ _ same) c).0
      | inr col ↦ inr col
    ]
    climb_at-injective left h h' x y c e = elim (eq_or_Collision _ _ e) [
      | inl same ↦
          inl (append-eq-append_right x h y h' (TextLemmas.append_cancel_left "\u{1}" _ _ same) c).1
      | inr col ↦ inr col
    ]

    climb_at-injective_places :
        (p q : Position) (h h' x y : String)
        → p ≡ q
        → count h ≡ count h'
        → climb_at sha256 p x h ≡ climb_at sha256 q y h'
        → (h ≡ h') ⊎ Collision sha256
    climb_at-injective_places p q h h' x y s c e = climb_at-injective q h h' x y c (rw s at e)

    count-climb_at : (p : Position) (x h : String) → count (climb_at sha256 p x h) ≡ 64
    unfolding climb_at merkle_node
    count-climb_at left x h = fixed _
    count-climb_at right x h = fixed _

    root_from-injective :
        (h h' : String) (path path' : List Step)
        → SamePlaces path path'
        → count h ≡ 64
        → count h' ≡ 64
        → root_from sha256 h path ≡ root_from sha256 h' path'
        → (h ≡ h') ⊎ Collision sha256
    unfolding root_from climb
    root_from-injective h h' [] [] s c c' e = inl e
    root_from-injective h h' [] (_ ∷ _) s c c' e = absurd s
    root_from-injective h h' (_ ∷ _) [] s c c' e = absurd s
    root_from-injective h h' (a ∷ path) (b ∷ path') s c c' e =
        elim (root_from-injective (climb sha256 h a) (climb sha256 h' b) path path' s.1
          (count-climb_at a.position a.hash h) (count-climb_at b.position b.hash h') e) [
            | inl same ↦
                climb_at-injective_places a.position b.position h h' a.hash b.hash s.0 (c ∙ sym c')
                  same
            | inr col ↦ inr col
          ]

    -- Two leaves that a client accepts under one root, along paths with the same turns, are the
    -- same leaf, or a collision of SHA-256 is at hand. Digests are taken to have 64 digits.
    pub verify_binds :
        (leaf leaf' root : String) (path path' : List Step)
        → SamePlaces path path'
        → verify_inclusion_proof sha256 leaf path root ≡ true
        → verify_inclusion_proof sha256 leaf' path' root ≡ true
        → (leaf ≡ leaf') ⊎ Collision sha256
    unfolding verify_inclusion_proof merkle_leaf
    verify_binds leaf leaf' root path path' s v v' =
        elim (root_from-injective _ _ path path' s (fixed _) (fixed _)
          ((eq_iff _ _).0 v ∙ sym ((eq_iff _ _).0 v'))) [
            | inl same ↦ elim (eq_or_Collision _ _ same) [
              | inl text ↦ inl (TextLemmas.append_cancel_left "\0" _ _ text)
              | inr col ↦ inr col
            ]
            | inr col ↦ inr col
          ]
