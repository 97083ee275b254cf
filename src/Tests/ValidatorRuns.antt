-- ===== src/Tests/ValidatorRuns.antt =====
-- The theorem on the validator: a record with an id and a nested outcome.
use oap_spec.Prelude.{ℕ, true, false, none, some, [], ◌∷◌, ◌≡◌, ◌↔◌}
use oap_spec.Json.{Json, undefined, str, obj, field, end}
use oap_spec.Validator.Shape.{Rule, Schema, schema, none_left, property, validate_decision_record}
use oap_spec.Validator.Documents.{Fits, validate_decision_record_iff}

abbrev text_rule : Rule ℕ
text_rule = record {
  types = "string" ∷ [];
  enum = none;
  const' = undefined;
  pattern = none;
  nests = false;
}

abbrev decision : Schema ℕ
decision = schema ("decision_id" ∷ []) (
    property "decision_id" text_rule (schema [] none_left) (
      property "policy" (record text_rule { types = "object" ∷ []; nests = true })
        (schema ("outcome" ∷ []) none_left) none_left))

abbrev decided : Json ℕ
decided =
    obj (
      field "decision_id" (str "d1") (field "policy" (obj (field "outcome" (str "allow") end)) end))

validate_decision_record_iff_example :
    validate_decision_record (λ a b. false) decision decided ≡ some []
    ↔ Fits (λ a b. false) decision decided
validate_decision_record_iff_example = validate_decision_record_iff (λ a b. false) decision decided
