-- ===== src/Aql/Projection.antt =====
-- `excluded`, `matchesPointer` and `matchSeg` (reference/aql/src/projection.js): which paths a
-- projection's exclude list removes.
use mathlib.Core.Bool.{false≢true}
use mathlib.Core.List.{append-nil}
use oap_spec.Prelude.{
  String, Bool, true, false, ◌||◌, List, [], ◌∷◌, ◌++◌, ◌≡◌, ◌≢◌, ◌↔◌, ◌⊎◌, inl, inr, refl, sym, ap,
  ◌∙◌, arith, ◌=s=◌, eq_iff, any, Bool-cases, if◌then◌else◌,
}
use oap_spec.Aql.Path.{segments_of}
use oap_spec.Aql.Leaf.{is_empty}

-- `for (let i = 0; i <= ps.length; i++)` over `ps.slice(i)`
unfoldable pub any_suffix : (List String → Bool) → List String → Bool
any_suffix test [] = test []
any_suffix test (p ∷ ps) = let later = any_suffix test ps in if test (p ∷ ps) then true else later

-- The pattern comes first: it is what the recursion goes down.
unfoldable pub match_seg : (qs ps : List String) → Bool
match_seg [] ps = is_empty ps
match_seg (q ∷ qrest) [] =
    let later = any_suffix (match_seg qrest) [] in
    if q =s= "**" then (if is_empty qrest then true else later) else false
match_seg (q ∷ qrest) (p ∷ prest) =
    let later = any_suffix (match_seg qrest) (p ∷ prest) in
    let next = match_seg qrest prest in
    if q =s= "**"
    then (if is_empty qrest then true else later)
    else if q =s= "*" || q =s= p
    then next
    else false

unfoldable pub matches_pointer : (path pattern : String) → Bool
matches_pointer path pattern = match_seg (segments_of pattern) (segments_of path)

unfoldable pub excluded : String → List String → Bool
excluded path exclude = any (matches_pointer path) exclude

-- What a pattern means: `*` stands for one segment, `**` for any number of them, anything else for
-- itself.
pub data Matches : (qs ps : List String) → Type 0 where
  done : Matches [] []
  one :
      (q p : String) (qs ps : List String)
      → q ≢ "**"
      → (q ≡ "*") ⊎ (q ≡ p)
      → Matches qs ps
      → Matches (q ∷ qs) (p ∷ ps)
  any_number :
      (skipped qs ps all' : List String)
      → all' ≡ skipped ++ ps
      → Matches qs ps
      → Matches ("**" ∷ qs) all'

any_suffix-split :
    (test : List String → Bool) (ps : List String)
    → any_suffix test ps ≡ true
    → (skipped : List String) × (rest : List String) × (ps ≡ skipped ++ rest) × (test rest ≡ true)
unfolding any_suffix
any_suffix-split test [] h = ([], [], refl, h)
any_suffix-split test (p ∷ ps) h = elim (Bool-cases (test (p ∷ ps))) [
  | inl e ↦ ([], p ∷ ps, refl, e)
  | inr e ↦
      let (skipped, rest, same, holds) = any_suffix-split test ps (rw e at h) in
      (p ∷ skipped, rest, ap (λ x. p ∷ x) same, holds)
]

any_suffix-append :
    (test : List String → Bool) (skipped ps : List String)
    → test ps ≡ true
    → any_suffix test (skipped ++ ps) ≡ true
unfolding any_suffix
any_suffix-append test [] [] h = h
any_suffix-append test [] (p ∷ ps) h = rw h refl
any_suffix-append test (s ∷ skipped) ps h = ground (arith, any_suffix-append test skipped ps h)

match_seg-star :
    (q : String) (qs ps : List String)
    → (q =s= "**") ≡ true
    → match_seg (q ∷ qs) ps ≡ (if is_empty qs then true else any_suffix (match_seg qs) ps)
unfolding match_seg
match_seg-star q qs [] e = rw e refl
match_seg-star q qs (p ∷ ps) e = rw e refl

star-split :
    (qs ps : List String)
    → (if is_empty qs then true else any_suffix (match_seg qs) ps) ≡ true
    → (skipped : List String) × (rest : List String) × (ps ≡ skipped ++ rest)
      × (match_seg qs rest ≡ true)
unfolding match_seg
star-split [] ps h = (ps, [], sym (append-nil ps), refl)
star-split (q ∷ qs) ps h = any_suffix-split (match_seg (q ∷ qs)) ps h

star-append :
    (qs skipped ps : List String)
    → match_seg qs ps ≡ true
    → (if is_empty qs then true else any_suffix (match_seg qs) (skipped ++ ps)) ≡ true
star-append [] skipped ps h = refl
star-append (q ∷ qs) skipped ps h = any_suffix-append (match_seg (q ∷ qs)) skipped ps h

ne_text : (q : String) → q ≢ "**" → (q =s= "**") ≡ false
ne_text q ne = elim (Bool-cases (q =s= "**")) [
  | inl e ↦ absurd (ne ((eq_iff q "**").0 e))
  | inr e ↦ e
]

fits_text : (q p : String) → (q ≡ "*") ⊎ (q ≡ p) → (q =s= "*" || q =s= p) ≡ true
fits_text q p (inl e) = ground (arith, (eq_iff q "*").1 e)
fits_text q p (inr e) = ground (arith, (eq_iff q p).1 e)

text_fits : (q p : String) → (q =s= "*" || q =s= p) ≡ true → (q ≡ "*") ⊎ (q ≡ p)
text_fits q p h = elim (Bool-cases (q =s= "*")) [
  | inl e ↦ inl ((eq_iff q "*").0 e)
  | inr e ↦ inr ((eq_iff q p).0 (ground (arith, e)))
]

match_seg-one :
    (q : String) (qs ps : List String)
    → (q =s= "**") ≡ false
    → ((rest : List String) → match_seg qs rest ≡ true → Matches qs rest)
    → match_seg (q ∷ qs) ps ≡ true
    → Matches (q ∷ qs) ps
unfolding match_seg
match_seg-one q qs [] plain go h = absurd (ground arith)
match_seg-one q qs (p ∷ ps) plain go h = elim (Bool-cases (q =s= "*" || q =s= p)) [
  | inl fits ↦
      one q p qs ps (λ e. false≢true (sym plain ∙ (eq_iff q "**").1 e)) (text_fits q p fits)
        (go ps (ground (arith, fits)))
  | inr other ↦ absurd (ground (arith, other))
]

match_seg-Matches : (qs ps : List String) → match_seg qs ps ≡ true → Matches qs ps
unfolding match_seg
match_seg-Matches [] [] h = done
match_seg-Matches [] (p ∷ ps) h = absurd (ground arith)
match_seg-Matches (q ∷ qs) ps h = elim (Bool-cases (q =s= "**")) [
  | inl star ↦
      let (skipped, rest, same, holds) = star-split qs ps (sym (match_seg-star q qs ps star) ∙ h) in
      rw ((eq_iff q "**").0 star)
        (any_number skipped qs rest ps same (match_seg-Matches qs rest holds))
  | inr plain ↦ match_seg-one q qs ps plain (match_seg-Matches qs) h
]

Matches-match_seg : {qs ps : List String} → Matches qs ps → match_seg qs ps ≡ true
unfolding match_seg
Matches-match_seg done = refl
Matches-match_seg (one q p qs ps plain fits m) =
    rw (ne_text q plain, fits_text q p fits) (Matches-match_seg m)
Matches-match_seg (any_number skipped qs ps all' same m) =
    rw same (
      match_seg-star "**" qs (skipped ++ ps) refl ∙ star-append qs skipped ps (Matches-match_seg m))

-- A path is excluded by a pattern exactly if it has the form that the pattern means.
pub match_seg_iff : (qs ps : List String) → (match_seg qs ps ≡ true) ↔ Matches qs ps
match_seg_iff qs ps = (match_seg-Matches qs ps, Matches-match_seg)
