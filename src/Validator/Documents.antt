-- ===== src/Validator/Documents.antt =====
-- Which documents fit a schema as the validator reads it (reference/validator/validate.js).
use oap_spec.Prelude.{
  String, Bool, true, false, not, ◌&&◌, Option, none, some, List, [], ◌∷◌, ◌++◌, ◌≡◌, ap, ◌↔◌, ◌⊎◌,
  inl, inr, refl, if◌then◌else◌, All, Bool-cases,
}
use oap_spec.Json.{Json}
use oap_spec.Validator.{prop}
use oap_spec.Validator.Shape.{
  Rule, Schema, schema, Properties, none_left, property, Fault, missing, is_defined, is_given, when,
  is_empty, is_typed, breaks_pattern, both, validate_decision_record, check_required, outside_enum,
  check_rule, validate_required_fields, check_properties,
}

both_iff : (a b : Option (List Fault)) → both a b ≡ some [] ↔ (a ≡ some []) × (b ≡ some [])
both_iff none b = (λ h. cc h, λ h. cc h.0)
both_iff (some a) none = (λ h. cc h, λ h. cc h.1)
both_iff (some []) (some b) = (λ h. (refl, h), λ h. h.1)
both_iff (some (f ∷ a)) (some b) = (λ h. cc h, λ h. cc h.0)

when_iff :
    (b : Bool) (f : Fault) (rest : List Fault) → when b f ++ rest ≡ [] ↔ (b ≡ false) × (rest ≡ [])
when_iff true f rest = (λ h. cc h, λ h. cc h.0)
when_iff false f rest = (λ h. (refl, h), λ h. h.1)

parts_iff :
    (a : List Fault) (b c : Option (List Fault))
    → both (some a) (both b c) ≡ some [] ↔ (a ≡ []) × (b ≡ some []) × (c ≡ some [])
parts_iff a b c =
    let outer = both_iff (some a) (both b c) in
    let inner = both_iff b c in
    (
      λ h. (cc ((outer.0 h).0), (inner.0 (outer.0 h).1).0, (inner.0 (outer.0 h).1).1),
      λ h. outer.1 (ap some h.0, inner.1 (h.1, h.2)),
    )

nested_iff :
    {P : Type 0} (nests : Bool) (x : Option (List Fault))
    → (x ≡ some [] ↔ P)
    → (if nests then x else some []) ≡ some [] ↔ (nests ≡ false) ⊎ P
nested_iff true x below = (λ h. inr (below.0 h), λ h. elim h [ inl n ↦ cc n | inr p ↦ below.1 p ])
nested_iff false x below = (λ h. inl refl, λ h. refl)

last_iff : (b : Bool) (f : Fault) → when b f ≡ [] ↔ b ≡ false
last_iff true f = (λ h. cc h, λ h. cc h)
last_iff false f = (λ h. refl, λ h. refl)

module _ {N : Type 0} (same : Json N → Json N → Bool) where
  -- The value has one of the types, is one of the listed values, is the constant and matches the pattern, as
  -- far as the rule has these.
  pub record Obeys (r : Rule N) (v : Json N) : Type 0 where
    pub typed : (not (is_empty r.types) && not (is_typed r.types v)) ≡ false
    pub listed : outside_enum same r.enum v ≡ false
    pub constant : (is_defined r.const' && not (same v r.const')) ≡ false
    pub matching : breaks_pattern r.pattern v ≡ false

  check_rule_iff :
      (key : String) (r : Rule N) (v : Json N) → check_rule same key r v ≡ [] ↔ Obeys r v
  unfolding check_rule
  check_rule_iff key r v =
      let t = when_iff (not (is_empty r.types) && not (is_typed r.types v)) _ _ in
      let e = when_iff (outside_enum same r.enum v) _ _ in
      let c = when_iff (is_defined r.const' && not (same v r.const')) _ _ in
      let m = last_iff (breaks_pattern r.pattern v) _ in
      (
        λ h. record {
          typed = (t.0 h).0;
          listed = (e.0 (t.0 h).1).0;
          constant = (c.0 (e.0 (t.0 h).1).1).0;
          matching = m.0 (c.0 (e.0 (t.0 h).1).1).1;
        },
        λ h. t.1 (h.typed, e.1 (h.listed, c.1 (h.constant, m.1 h.matching))),
      )

  -- A value of an object fits: every required field is there and not null, and every property that is
  -- there obeys its rule and, where the rule nests, fits the nested schema.
  mutual
    pub Fits : Schema N → Json N → Type 0
    Fits (schema required properties) v =
        All (λ f. (is_given v ≡ true) × (is_given (prop v f) ≡ true)) required
        × FitsEach properties v

    pub FitsEach : Properties N → Json N → Type 0
    FitsEach none_left v = Unit
    FitsEach (property key r nested rest) v =
        (is_given v ≡ true)
        × ((is_defined (prop v key) ≡ false)
            ⊎ (Obeys r (prop v key) × ((r.nests ≡ false) ⊎ Fits nested (prop v key))))
        × FitsEach rest v

  check_required_iff :
      (required : List String) (v : Json N)
      → check_required required v ≡ some []
        ↔ All (λ f. (is_given v ≡ true) × (is_given (prop v f) ≡ true)) required
  unfolding check_required
  check_required_iff [] v = (λ h. tt, λ h. refl)
  check_required_iff (f ∷ fs) v =
      let ih = check_required_iff fs v in
      elim (Bool-cases (is_given v)) [
        | inr e ↦ (λ h. cc (rw (e, check_required) at h), λ h. cc (e, h.0.0))
        | inl e ↦ elim (Bool-cases (is_given (prop v f))) [
          | inl g ↦ (
            λ h. (
              (e, g),
              ih.0
                  ((both_iff (some []) (check_required fs v)).0 (rw (e, g, check_required) at h)).1,
            ),
            λ h.
                rw (e, g, check_required)
                  ((both_iff (some []) (check_required fs v)).1 (refl, ih.1 h.1)),
          )
          | inr g ↦ (
            λ h.
                cc
                  ((both_iff (some (missing f ∷ [])) (check_required fs v)).0
                    (rw (e, g, check_required) at h)).0,
            λ h. cc (g, h.0.1),
          )
        ]
      ]

  mutual
    unfolding validate_required_fields Fits

    validate_required_fields_iff :
        (s : Schema N) (v : Json N) → validate_required_fields same s v ≡ some [] ↔ Fits s v
    validate_required_fields_iff (schema required properties) v =
        let r = check_required_iff required v in
        let p = check_properties_iff properties v in
        let b = both_iff (check_required required v) (check_properties same properties v) in
        (λ h. (r.0 (b.0 h).0, p.0 (b.0 h).1), λ h. b.1 (r.1 h.0, p.1 h.1))

    check_properties_iff :
        (ps : Properties N) (v : Json N) → check_properties same ps v ≡ some [] ↔ FitsEach ps v
    check_properties_iff none_left v = (λ h. tt, λ h. refl)
    check_properties_iff (property key r nested rest) v =
        let below = validate_required_fields_iff nested (prop v key) in
        let later = check_properties_iff rest v in
        let rule = check_rule_iff key r (prop v key) in
        let parts =
          parts_iff (check_rule same key r (prop v key))
            (if r.nests then validate_required_fields same nested (prop v key) else some [])
            (check_properties same rest v) in
        elim (Bool-cases (is_given v)) [
          | inr e ↦ (λ h. cc (rw (e, check_properties) at h), λ h. cc (e, h.0))
          | inl e ↦ elim (Bool-cases (is_defined (prop v key))) [
            | inr d ↦ (
              λ h. (e, inl d, later.0 (rw (e, d, check_properties) at h)),
              λ h. rw (e, d, check_properties) (later.1 h.2),
            )
            | inl d ↦ (
              λ h.
                  let all_parts = parts.0 (rw (e, d, check_properties) at h) in
                  (
                    e,
                    inr (rule.0 all_parts.0, (nested_iff r.nests _ below).0 all_parts.1),
                    later.0 all_parts.2,
                  ),
              λ h. elim h.1 [
                | inl u ↦ cc (d, u)
                | inr o ↦
                    rw (e, d, check_properties)
                      (parts.1 (rule.1 o.0, (nested_iff r.nests _ below).1 o.1, later.1 h.2))
              ],
            )
          ]
        ]

  -- A decision record is found without a fault exactly if it fits the schema: it has every required field, not
  -- null, and every property that is there has one of the types, listed values and constants that the
  -- schema gives, matches its pattern, and, where the schema nests, fits the nested one.
  pub validate_decision_record_iff :
      (s : Schema N) (v : Json N) → validate_decision_record same s v ≡ some [] ↔ Fits s v
  unfolding validate_decision_record
  validate_decision_record_iff s v = validate_required_fields_iff s v
