-- ===== src/Suite/Claims.antt =====
-- Which levels a receipt of test-suite/attest.js claims.
use oap_spec.Prelude.{
  ◌≤◌, String, Bool, true, false, not, ◌&&◌, ◌||◌, some, List, [], ◌∷◌, ◌≡◌, ◌≢◌, ◌↔◌, ◌⊎◌, inl,
  inr, refl, sym, ◌∙◌, arith, ◌=s=◌, ◌==◌, eq_iff, if◌then◌else◌, length, any, all, All, Bool-cases,
  List-cases,
}
use oap_spec.Suite.{Result, basename, count_passed, summarize}
use oap_spec.Suite.Attest.{
  is_empty, ends_with, evidence, supports, matches, in_profile, claimed_from, levels_from_results,
}

module _ {A : Type 0} (P : A → Type 0) where
  -- One of the list has the property.
  abbrev pub Some : List A → Type 0
  Some [] = ⊥
  Some (x ∷ xs) = P x ⊎ Some xs

abbrev pub file_of : Result → String
file_of r = if r.file =s= "" then r.name else r.file

-- The result passed, was applicable, and is of the required file, or of one with its last segment.
pub record IsEvidence (required : String) (r : Result) : Type 0 where
  pub passed : r.passed ≡ true
  pub applicable : ends_with "-not-applicable" r.name ≡ false
  pub named : (file_of r =s= "") ≡ false
  pub same : (file_of r ≡ required) ⊎ (basename (file_of r) ≡ basename required)

supports-skipped : (required : String) (r : Result) → evidence r ≡ "" → supports required r ≡ false
unfolding supports
supports-skipped required r e = rw e refl

evidence-failed : (r : Result) → r.passed ≡ false → evidence r ≡ ""
unfolding evidence
evidence-failed r f = rw f refl

evidence-inapplicable : (r : Result) → ends_with "-not-applicable" r.name ≡ true → evidence r ≡ ""
unfolding evidence
evidence-inapplicable r n = elim (Bool-cases r.passed) [
  | inl p ↦ rw (p, n) refl
  | inr f ↦ rw f refl
]

evidence-file :
    (r : Result)
    → r.passed ≡ true
    → ends_with "-not-applicable" r.name ≡ false
    → evidence r ≡ file_of r
unfolding evidence
evidence-file r p n = rw (p, n) refl

same_iff :
    (f required : String)
    → ((f =s= required) || (basename f =s= basename required)) ≡ true
      ↔ (f ≡ required) ⊎ (basename f ≡ basename required)
same_iff f required =
    let whole = eq_iff f required in
    let last = eq_iff (basename f) (basename required) in
    elim (Bool-cases (f =s= required)) [
      | inl e ↦ (λ h. inl (whole.0 e), λ h. rw e refl)
      | inr e ↦ elim (Bool-cases (basename f =s= basename required)) [
        | inl b ↦ (λ h. inr (last.0 b), λ h. rw (e, b) refl)
        | inr b ↦ (
          λ h. cc (rw (e, b) at h),
          λ h. elim h [ inl p ↦ cc (e, whole.1 p) | inr p ↦ cc (b, last.1 p) ],
        )
      ]
    ]

supports-file :
    (required : String) (r : Result)
    → evidence r ≡ file_of r
    → (file_of r =s= "") ≡ false
    → supports required r
      ≡ ((file_of r =s= required) || (basename (file_of r) =s= basename required))
unfolding supports
supports-file required r e n = rw (e, n) refl

supports_iff : (required : String) (r : Result) → supports required r ≡ true ↔ IsEvidence required r
supports_iff required r = elim (Bool-cases r.passed) [
  | inr f ↦ (λ h. cc (h, supports-skipped required r (evidence-failed r f)), λ h. cc (f, h.passed))
  | inl p ↦ elim (Bool-cases (ends_with "-not-applicable" r.name)) [
    | inl n ↦ (
      λ h. cc (h, supports-skipped required r (evidence-inapplicable r n)),
      λ h. cc (n, h.applicable),
    )
    | inr n ↦
        let file = evidence-file r p n in
        elim (Bool-cases (file_of r =s= "")) [
          | inl e ↦ (
            λ h. cc (h, supports-skipped required r (file ∙ (eq_iff (file_of r) "").0 e)),
            λ h. cc (e, h.named),
          )
          | inr e ↦
              let test = supports-file required r file e in
              let same = same_iff (file_of r) required in
              (
                λ h. record { passed = p; applicable = n; named = e; same = same.0 (sym test ∙ h) },
                λ h. test ∙ same.1 h.same,
              )
        ]
  ]
]

any_iff :
    {A : Type 0} (p : A → Bool) (P : A → Type 0)
    → ((x : A) → p x ≡ true ↔ P x)
    → (xs : List A) → any p xs ≡ true ↔ Some P xs
any_iff p P one [] = (λ h. cc h, λ h. absurd h)
any_iff p P one (x ∷ xs) =
    let ih = any_iff p P one xs in
    elim (Bool-cases (p x)) [
      | inl e ↦ (λ h. inl ((one x).0 e), λ h. rw e refl)
      | inr e ↦ (
        λ h. inr (ih.0 (rw e at h)),
        λ h. elim h [ inl k ↦ cc (e, (one x).1 k) | inr k ↦ rw e (ih.1 k) ],
      )
    ]

all_iff :
    {A : Type 0} (p : A → Bool) (P : A → Type 0)
    → ((x : A) → p x ≡ true ↔ P x)
    → (xs : List A) → all p xs ≡ true ↔ All P xs
all_iff p P one [] = (λ h. tt, λ h. refl)
all_iff p P one (x ∷ xs) =
    let ih = all_iff p P one xs in
    elim (Bool-cases (p x)) [
      | inl e ↦ (λ h. ((one x).0 e, ih.0 (rw e at h)), λ h. rw e (ih.1 h.1))
      | inr e ↦ (λ h. cc (rw e at h), λ h. cc (e, (one x).1 h.0))
    ]

-- The requirement is there, and each of its files has evidence.
pub record IsMet (profile : String) (results : List Result) (level : String)
    (required : List String) : Type 0 where
  pub some_file : required ≢ []
  pub profiled : in_profile profile level ≡ true
  pub evident : All (λ q. Some (IsEvidence q) results) required

module _ (profile : String) (results : List Result) where
  abbrev is_met : String → List String → Bool
  is_met level required =
      not (is_empty required) && in_profile profile level && all (matches results) required

  is_met_iff :
      (level : String) (required : List String)
      → is_met level required ≡ true ↔ IsMet profile results level required
  unfolding matches
  is_met_iff level [] = (λ h. cc h, λ h. absurd (h.some_file refl))
  is_met_iff level (q ∷ qs) =
      let each =
        all_iff (matches results) (λ q. Some (IsEvidence q) results)
          (λ q. any_iff (supports q) (IsEvidence q) (supports_iff q) results) (q ∷ qs) in
      elim (Bool-cases (in_profile profile level)) [
        | inl e ↦ (
          λ h. record { some_file = λ k. cc k; profiled = e; evident = each.0 (rw e at h) },
          λ h. rw e (each.1 h.evident),
        )
        | inr e ↦ (λ h. cc (rw e at h), λ h. cc (e, h.profiled))
      ]

  -- The level is one of those listed, with a requirement that is met.
  abbrev pub Reached : String → List (String × List String) → Type 0
  Reached level levels = Some (λ e. (e.0 ≡ level) × IsMet profile results e.0 e.1) levels

  claimed_from_iff :
      (level : String) (levels : List (String × List String))
      → Some (λ l. l ≡ level) (claimed_from profile results levels) ↔ Reached level levels
  unfolding claimed_from
  claimed_from_iff level [] = (λ h. absurd h, λ h. absurd h)
  claimed_from_iff level ((l, required) ∷ rest) =
      let ih = claimed_from_iff level rest in
      let one = is_met_iff l required in
      elim (Bool-cases (is_met l required)) [
        | inl e ↦ rw e (
          λ h. elim h [ inl k ↦ inl (k, one.0 e) | inr k ↦ inr (ih.0 k) ],
          λ h. elim h [ inl k ↦ inl k.0 | inr k ↦ inr (ih.1 k) ],
        )
        | inr e ↦
            rw e (λ h. inr (ih.0 h), λ h. elim h [ inl k ↦ cc (e, one.1 k.1) | inr k ↦ ih.1 k ])
      ]

count_passed-le : (rs : List Result) → count_passed rs ≤ length rs
unfolding count_passed
count_passed-le [] = omega arith
count_passed-le (r ∷ rs) = ground (arith, count_passed-le rs)

none_failed_iff :
    (rs : List Result) → ((summarize rs).failed == 0) ≡ true ↔ All (λ r. r.passed ≡ true) rs
unfolding summarize count_passed
none_failed_iff [] = (λ h. tt, λ h. refl)
none_failed_iff (r ∷ rs) =
    let ih = none_failed_iff rs in
    let le = count_passed-le rs in
    elim (Bool-cases r.passed) [
      | inl e ↦ (λ h. (e, ih.0 (ground (arith, e, h, le))), λ h. ground (arith, e, ih.1 h.1, le))
      | inr e ↦ (λ h. ground (arith, e, h, le), λ h. cc (e, h.0))
    ]

-- The receipt claims a level, that is, the runner exits with 0 and the level is among those that are
-- reached, exactly if all results passed and the configuration lists the level, for the profile, with
-- some required files, for each of which a result passed that is applicable and is of that file or one
-- with the same last segment.
pub levels_from_results_iff :
    (profile : String) (levels : List (String × List String)) (results : List Result)
    (level : String)
    → ((claimed : List String) × (levels_from_results profile levels results ≡ some claimed)
        × Some (λ l. l ≡ level) claimed)
      ↔ All (λ r. r.passed ≡ true) results × Reached profile results level levels
unfolding levels_from_results
levels_from_results_iff profile levels results level =
    let ran = none_failed_iff results in
    let reached = claimed_from_iff profile results level levels in
    elim (Bool-cases ((summarize results).failed == 0)) [
      | inr f ↦ (λ h. ground (arith, f, h.1), λ h. cc (f, ran.1 h.0))
      | inl p ↦ elim (List-cases (claimed_from profile results levels)) [
        | inl e ↦ (λ h. ground (arith, p, e, h.1), λ h. absurd (rw e at (reached.1 h.1)))
        | inr (l, ls, e) ↦ (
          λ h.
              let same : claimed_from profile results levels ≡ h.0 = ground (arith, p, e, h.1) in
              (ran.0 p, reached.0 (rw same h.2)),
          λ h. (claimed_from profile results levels, ground (arith, p, e), reached.1 h.1),
        )
      ]
    ]
