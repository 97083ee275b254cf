-- ===== src/Coordinator/Admission.antt =====
-- Which workflows `openWorkflow` admits.
use text.Mathlib.TextLemmas
use oap_spec.Prelude.{
  Bool-cases, ap, sym, ◌∙◌, ℕ, ◌≤◌, ◌≢◌, ◌+s◌, eq_iff, lookup-store, lookup, ◌⊎◌, String, false,
  Option, none, some, List, [], ◌∷◌, ◌≡◌, ◌↔◌, refl, arith, ◌=s=◌, All, Option-cases, inl, inr,
}
use oap_spec.Coordinator.{Error, Role, Profile, Manifest, Workflow, Coordinator, Host, opening}
use oap_spec.Coordinator.Machine.{ok, err, or_text, audit}
use oap_spec.Coordinator.Opening.{remove_m, check_profile, check_role, check_roles, open_workflow}

M-append : (digits : String) → "M" +s digits ≡ String.◌∷◌ "M" digits
M-append digits =
    TextLemmas.cons-append "M" "" digits ∙ ap (String.◌∷◌ "M") (TextLemmas.nil-append digits)

filled-append : (digits : String) → (("M" +s digits) =s= "") ≡ false
filled-append digits = elim (Bool-cases (("M" +s digits) =s= "")) [
  | inl e ↦
      absurd (
        TextLemmas.cons-ne-nil "M" digits (sym (M-append digits) ∙ (eq_iff ("M" +s digits) "").0 e))
  | inr e ↦ e
]

remove_m-append : (digits : String) → remove_m ("M" +s digits) ≡ digits
unfolding remove_m
remove_m-append digits = rw (M-append digits) refl

module _ {N : Type 0} (host : Host N) where
  -- A level is the letter M and what `parseInt` reads as the number.
  abbrev pub Names : String → ℕ → Type 0
  Names level n = (digits : String) × (level ≡ "M" +s digits) × (host.parse_int digits ≡ some n)

  -- A profile declares a level, or none, which counts as level 0.
  abbrev pub Declares : Profile → ℕ → Type 0
  Declares profile n =
      ((profile.declared_conformance ≡ none) × (n ≡ 0))
      ⊎ ((level : String) × (profile.declared_conformance ≡ some level) × Names level n)

  parse-Names : (level : String) (n : ℕ) → Names level n → host.parse_int (remove_m level) ≡ some n
  parse-Names level n (digits, made, parsed) = rw (made, remove_m-append) parsed

  or_text-Names :
      (level default : String) (n : ℕ) → Names level n → or_text (some level) default ≡ level
  or_text-Names level default n (digits, made, parsed) = rw (made, filled-append digits) refl

  parse-Declares :
      (profile : Profile) (n : ℕ)
      → host.parse_int "0" ≡ some 0
      → Declares profile n
      → host.parse_int (remove_m (or_text profile.declared_conformance "M0")) ≡ some n
  parse-Declares profile n zero (inl (nothing, is_zero)) =
      rw (nothing, is_zero, remove_m-append "0") zero
  parse-Declares profile n zero (inr (level, declared, names)) =
      rw (declared, or_text-Names level "M0" n names) (parse-Names level n names)

module _ {N : Type 0} (host : Host N) (fetch : String → Option Profile)
    (selected : List (String × String)) where
  -- The role has a broker whose profile is found, is of the role's category and declares a level not
  -- below the one that the role requires.
  pub record IsStaffed (role : Role) : Type 0 where
    pub did : String
    pub profile : Profile
    pub declared : ℕ
    pub required : ℕ
    pub chosen : lookup role.role_id selected ≡ some did
    pub filled : did ≢ ""
    pub found : fetch did ≡ some profile
    pub category : profile.broker_category ≡ role.broker_category
    pub declares : Declares host profile declared
    pub requires : Names host role.min_conformance required
    pub enough : required ≤ declared

  abbrev HasLevel : Role → Type 0
  HasLevel role = (n : ℕ) × Names host role.min_conformance n

  module _ (zero_level : host.parse_int "0" ≡ some 0)
      (profiles : (did : String) (profile : Profile)
        → fetch did ≡ some profile
        → (n : ℕ) × Declares host profile n) where
    check_role-IsStaffed :
        (role : Role) → HasLevel role → check_role host fetch selected role ≡ none → IsStaffed role
    unfolding check_role check_profile
    check_role-IsStaffed role (n, names) h = elim (Option-cases (lookup role.role_id selected)) [
      | inl unstaffed ↦ absurd (ground (arith, unstaffed, h))
      | inr (did, chosen) ↦ elim (Option-cases (fetch did)) [
        | inl unknown ↦ absurd (ground (arith, chosen, unknown, h))
        | inr (profile, found) ↦
            let (d, declares) = profiles did profile found in
            let left = parse-Declares host profile d zero_level declares in
            let right = parse-Names host role.min_conformance n names in
            record {
              did = did;
              profile = profile;
              declared = d;
              required = n;
              chosen = chosen;
              filled = λ e. absurd (ground (arith, chosen, (eq_iff did "").1 e, h));
              found = found;
              category =
                  (eq_iff profile.broker_category role.broker_category).0
                    (ground (arith, chosen, found, h));
              declares = declares;
              requires = names;
              enough = ground (arith, chosen, found, h, left, right);
            }
      ]
    ]

    IsStaffed-check_role :
        (role : Role) → IsStaffed role → check_role host fetch selected role ≡ none
    unfolding check_role check_profile
    IsStaffed-check_role role s =
        let left = parse-Declares host s.profile s.declared zero_level s.declares in
        let right = parse-Names host role.min_conformance s.required s.requires in
        let same = (eq_iff s.profile.broker_category role.broker_category).1 s.category in
        elim (Bool-cases (s.did =s= "")) [
          | inl e ↦ absurd (s.filled ((eq_iff s.did "").0 e))
          | inr e ↦ ground (arith, s.chosen, e, s.found, same, left, right, s.enough)
        ]

    check_roles_iff :
        (roles : List Role)
        → All HasLevel roles
        → (check_roles host fetch selected roles ≡ none) ↔ All IsStaffed roles
    unfolding check_roles
    check_roles_iff [] _ = (λ _. tt, λ _. refl)
    check_roles_iff (role ∷ roles) levels = (
      (λ h. elim (Option-cases (check_role host fetch selected role)) [
        | inl fine ↦ (
          check_role-IsStaffed role levels.0 fine,
          (check_roles_iff roles levels.1).0 (rw (fine, check_roles) at h),
        )
        | inr (e, wrong) ↦ absurd (ground (arith, wrong, h))
      ]),
      (λ h.
          rw (IsStaffed-check_role role h.0, check_roles) ((check_roles_iff roles levels.1).1 h.1)),
    )

    -- If every profile that can be found declares a level of the form M and a number, or none, and every
    -- role requires such a level, then `openWorkflow` succeeds exactly if every role of the manifest has
    -- a broker whose profile is found, is of the category of the role and declares a level not below the
    -- required one, where none declared counts as M0; `parseInt` reads 0 as 0.
    pub open_workflow-eq-ok_iff :
        (id : String) (m : Manifest N) (initiator : String) (c : Coordinator N)
        → All HasLevel m.roles
        → ((open_workflow host fetch id m initiator selected c).0 ≡ ok id) ↔ All IsStaffed m.roles
    unfolding open_workflow
    open_workflow-eq-ok_iff id m initiator c levels =
        elim (Option-cases (check_roles host fetch selected m.roles)) [
          | inl fine ↦
              ((λ _. (check_roles_iff m.roles levels).0 fine), (λ _. rw (fine, open_workflow)))
          | inr (e, wrong) ↦ (
            (λ h. absurd (ground (arith, wrong, h))),
            (λ h. absurd (ground (arith, wrong, (check_roles_iff m.roles levels).1 h))),
          )
        ]

  -- Opening a workflow either puts it under the id that was drawn, in state Opening, with no segment
  -- and no receipt, or fails and leaves the coordinator as it was.
  pub open_workflow_effect :
      (id : String) (m : Manifest N) (initiator : String) (c : Coordinator N)
      → ((w : Workflow N) × ((open_workflow host fetch id m initiator selected c).0 ≡ ok id)
          × (lookup id (open_workflow host fetch id m initiator selected c).1.workflows ≡ some w)
          × (w.state ≡ opening)
          × (w.segments ≡ [])
          × (w.last_receipt ≡ none))
        ⊎ ((e : Error) × ((open_workflow host fetch id m initiator selected c).0 ≡ err e)
            × ((open_workflow host fetch id m initiator selected c).1 ≡ c))
  unfolding open_workflow audit
  open_workflow_effect id m initiator c =
      elim (Option-cases (check_roles host fetch selected m.roles)) [
        | inl fine ↦
            rw (fine, open_workflow)
              (inl (_, refl, lookup-store id c.workflows _, refl, refl, refl))
        | inr (e, wrong) ↦ rw (wrong, open_workflow) (inr (e, refl, refl))
      ]
