-- ===== src/Validator/Shape.antt =====
-- `validateRequiredFields` and the validators of single documents (reference/validator/validate.js).
-- A schema is read as what the validator takes from it. none is a thrown TypeError: a field is read
-- of null or undefined.
use oap_spec.Prelude.{
  String, Bool, true, false, not, ◌&&◌, ◌||◌, Option, none, some, List, [], ◌∷◌, ◌++◌, ◌=s=◌,
  if◌then◌else◌, any,
}
use oap_spec.Json.{Json, undefined, null, bool, num, str, arr, obj}
use oap_spec.Validator.{prop}

-- The constraints of a property; a missing type is [], and `const'` is undefined where it is falsy.
pub record Rule (N : Type 0) : Type 0 where
  pub types : List String
  pub enum : Option (List (Json N))
  pub const' : Json N
  pub pattern : Option (String → Bool)
  pub nests : Bool  -- type === 'object' && properties

mutual
  pub data Schema (N : Type 0) : Type 0 where
    schema : (required : List String) → Properties N → Schema N

  pub data Properties (N : Type 0) : Type 0 where
    none_left : Properties N
    property : (key : String) → Rule N → Schema N → Properties N → Properties N

pub data Fault : Type 0 where
  missing : (field : String) → Fault
  wrong_type : (key : String) → Fault
  not_in_enum : (key : String) → Fault
  wrong_const : (key : String) → Fault
  no_match : (key : String) → Fault
  wrong_version : Fault
  unacceptable_risk : Fault
  no_actions : Fault
  no_jurisdictions : Fault
  missing_endpoint : (name : String) → Fault
  description_too_long : Fault
  bad_receipt_id : Fault
  no_signatures : Fault

abbrev pub is_defined : {N : Type 0} → Json N → Bool
is_defined undefined = false
is_defined _ = true

abbrev pub is_given : {N : Type 0} → Json N → Bool
is_given undefined = false
is_given null = false
is_given _ = true

-- Array.isArray and typeof
unfoldable pub type_of : {N : Type 0} → Json N → String
type_of undefined = "undefined"
type_of null = "object"
type_of (bool b) = "boolean"
type_of (num n) = "number"
type_of (str s) = "string"
type_of (arr vs) = "array"
type_of (obj fs) = "object"

abbrev pub when : Bool → Fault → List Fault
when true f = f ∷ []
when false f = []

abbrev pub has_type : List String → String → Bool
has_type types t = any (λ u. u =s= t) types

abbrev pub is_empty {ℓ} : {A : Type ℓ} → List A → Bool
is_empty [] = true
is_empty (_ ∷ _) = false

abbrev pub breaks_pattern : {N : Type 0} → Option (String → Bool) → Json N → Bool
breaks_pattern (some matches) (str s) = not (matches s)
breaks_pattern _ _ = false

-- Of the expected types, where an integer is a number.
abbrev pub is_typed : {N : Type 0} → List String → Json N → Bool
is_typed types v =
    has_type types (type_of v) || (type_of v =s= "number") && has_type types "integer"

-- Faults of two parts, in their order, if neither throws.
abbrev pub both : Option (List Fault) → Option (List Fault) → Option (List Fault)
both (some a) (some b) = some (a ++ b)
both _ _ = none

module _ {N : Type 0} where
  -- The loop over `schema.required`.
  unfoldable pub check_required : List String → Json N → Option (List Fault)
  check_required [] v = some []
  check_required (f ∷ fs) v =
      if is_given v
      then both (some (when (not (is_given (prop v f))) (missing f))) (check_required fs v)
      else none

  -- `same` is `===`.
  module _ (same : Json N → Json N → Bool) where
    abbrev pub outside_enum : Option (List (Json N)) → Json N → Bool
    outside_enum none v = false
    outside_enum (some vs) v = not (any (same v) vs)

    -- The checks of one property that is there, but for the nested ones.
    unfoldable pub check_rule : (key : String) → Rule N → Json N → List Fault
    check_rule key r v =
        when (not (is_empty r.types) && not (is_typed r.types v)) (wrong_type key)
        ++ (when (outside_enum r.enum v) (not_in_enum key)
            ++ (when (is_defined r.const' && not (same v r.const')) (wrong_const key)
                ++ when (breaks_pattern r.pattern v) (no_match key)))

    unfoldable mutual
      unfolding check_required check_rule

      pub validate_required_fields : Schema N → Json N → Option (List Fault)
      validate_required_fields (schema required properties) v =
          both (check_required required v) (check_properties properties v)

      -- The loop over `schema.properties`.
      pub check_properties : Properties N → Json N → Option (List Fault)
      check_properties none_left v = some []
      check_properties (property key r nested rest) v =
          let w = prop v key in
          let below = validate_required_fields nested w in
          let later = check_properties rest v in
          if not (is_given v)
          then none
          else if is_defined w
          then both (some (check_rule key r w)) (both (if r.nests then below else some []) later)
          else later

    -- `validateDecisionRecord`, with the schema that `loadSchema('decision')` gives.
    unfoldable pub validate_decision_record : Schema N → Json N → Option (List Fault)
    validate_decision_record s v = validate_required_fields s v
