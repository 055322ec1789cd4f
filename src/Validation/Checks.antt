-- ===== src/Validation/Checks.antt =====
-- validation/schema.go: the checks of one schema, with the validators of its subschemas in place of
-- the subschemas.
use openbotstack_core.Validation.Values.{
  dot_path, drop, error_unless, is_none, item_path, validate_const, validate_enum, validate_number,
  validate_string, validate_type, wrap, ◌then_check◌,
}
use openbotstack_core.Base.{
  ℕ, suc, ◌+◌, String, Bool, false, not, ◌&&◌, ◌||◌, Option, none, some, List, [], ◌∷◌, Dict,
  lookup, if◌then◌else◌, is_some, is_empty, length, any, ◌==◌, nat_eq,
}
use openbotstack_core.Value.{Value, array, object, elements, entries}
use openbotstack_core.Validation.{
  Keywords, Message, ValidationError, validation_error, Host, missing_field, unknown_property,
  no_any_of, not_one_of, not_all_of, then_failed, else_failed,
}

-- A schema as a function of the data and the path, which returns the first error.
abbrev pub Validator : Type 0
Validator = Value → String → Option ValidationError

-- The validators of the subschemas of a schema.
pub record Subs : Type 0 where
  pub properties : Option (Dict Validator)
  pub items : Option Validator
  pub any_of : List Validator
  pub one_of : List Validator
  pub all_of : List Validator
  pub prefix_items : List Validator
  pub if_schema : Option Validator
  pub then_schema : Option Validator
  pub else_schema : Option Validator

-- `validatePrefixItems`, from the index `i`.
unfoldable pub validate_prefix_items :
    List Value → List Validator → ℕ → String → Option ValidationError
validate_prefix_items arr [] i path = none
validate_prefix_items [] (_ ∷ _) i path = none
validate_prefix_items (v ∷ arr) (validate ∷ vs) i path =
    validate v (item_path path i) then_check validate_prefix_items arr vs (suc i) path

-- The loop of `validateArray` over the items from the index `i`.
unfoldable pub validate_items : List Value → Validator → ℕ → String → Option ValidationError
validate_items [] validate i path = none
validate_items (v ∷ arr) validate i path =
    validate v (item_path path i) then_check validate_items arr validate (suc i) path

-- `validateArray` and `validateArrayStrict`
unfoldable pub validate_array : Value → Subs → String → Option ValidationError
validate_array (array vs) subs path =
    validate_prefix_items (elements vs) subs.prefix_items 0 path then_check (elim subs.items [
      | none ↦ none
      | some validate ↦
          validate_items (drop (length subs.prefix_items) (elements vs)) validate
            (length subs.prefix_items) path
    ])
validate_array _ subs path = none

-- The loops of `validateObject`: the required fields, the properties, and the unknown keys.
unfoldable pub validate_required : Dict Value → List String → String → Option ValidationError
validate_required obj [] path = none
validate_required obj (req ∷ reqs) path =
    error_unless (is_some (lookup req obj)) (validation_error (dot_path path req) missing_field)
    then_check validate_required obj reqs path

unfoldable pub validate_properties : Dict Value → Dict Validator → String → Option ValidationError
validate_properties obj [] path = none
validate_properties obj ((key, validate) ∷ props) path =
    (elim (lookup key obj) [ none ↦ none | some val ↦ validate val (dot_path path key) ])
    then_check validate_properties obj props path

unfoldable pub validate_known : Dict Value → Dict Validator → String → Option ValidationError
validate_known [] props path = none
validate_known ((key, _) ∷ obj) props path =
    error_unless (is_some (lookup key props))
      (validation_error (dot_path path key) unknown_property)
    then_check validate_known obj props path

-- The properties of a schema; a nil map has none.
abbrev pub or_no_properties : Option (Dict Validator) → Dict Validator
or_no_properties none = []
or_no_properties (some props) = props

abbrev pub forbids : Option Bool → Bool
forbids none = false
forbids (some allowed) = not allowed

-- `validateObject`
unfoldable pub validate_object : Value → Keywords → Subs → String → Bool → Option ValidationError
validate_object (object fields) schema subs path strict =
    let obj : Dict Value = entries fields in
    let props : Dict Validator = or_no_properties subs.properties in
    validate_required obj schema.required path
    then_check validate_properties obj props path
    then_check (if (strict || forbids schema.additional_properties) && not (is_empty props)
        then validate_known obj props path
        else none)
validate_object _ schema subs path strict = none

-- How many of the schemas of oneOf match.
unfoldable pub count_matches : List Validator → Value → String → ℕ
count_matches [] datum path = 0
count_matches (validate ∷ vs) datum path =
    (if is_none (validate datum path) then 1 else 0) + count_matches vs datum path

unfoldable pub validate_all_of : List Validator → Value → String → Option ValidationError
validate_all_of [] datum path = none
validate_all_of (validate ∷ vs) datum path =
    wrap path not_all_of (validate datum path) then_check validate_all_of vs datum path

-- `validateComposition`
unfoldable pub validate_composition : Value → Subs → String → Option ValidationError
validate_composition datum subs path =
    (if is_empty subs.any_of
      then none
      else error_unless (any (λ validate. is_none (validate datum path)) subs.any_of)
          (validation_error path no_any_of))
    then_check (if is_empty subs.one_of
        then none
        else error_unless (nat_eq (count_matches subs.one_of datum path) 1)
            (validation_error path (not_one_of (count_matches subs.one_of datum path))))
    then_check validate_all_of subs.all_of datum path

-- A branch of `validateConditional`: an absent one accepts everything.
abbrev pub validate_branch :
    Option Validator → (ValidationError → Message) → Value → String → Option ValidationError
validate_branch none message datum path = none
validate_branch (some validate) message datum path = wrap path message (validate datum path)

-- `validateConditional`, called where the schema has an `if`.
unfoldable pub validate_conditional : Value → Validator → Subs → String → Option ValidationError
validate_conditional datum if_schema subs path = elim (if_schema datum path) [
  | none ↦ validate_branch subs.then_schema then_failed datum path
  | some _ ↦ validate_branch subs.else_schema else_failed datum path
]

module _ (host : Host) where
  -- The `switch schema.Type` of `validateValue` and `validateValueStrict`.
  unfoldable pub validate_by_type : Bool → Keywords → Subs → Value → String → Option ValidationError
  validate_by_type strict schema subs datum path =
      if schema.schema_type == "string"
      then validate_string host datum schema path
      else if schema.schema_type == "number" || schema.schema_type == "integer"
      then validate_number host datum schema path
      else if schema.schema_type == "array"
      then validate_array datum subs path
      else if schema.schema_type == "object"
          || (schema.schema_type == "" && is_some subs.properties)
      then validate_object datum schema subs path strict
      else none

  -- `validateValue` and `validateValueStrict`, which differ in what they pass to `validateObject`
  -- and in the mode of the subschemas.
  unfoldable pub validate_with : Bool → Keywords → Subs → Validator
  validate_with strict schema subs datum path =
      (if schema.schema_type == "" then none else validate_type host datum schema.schema_type path)
      then_check (if is_empty schema.enum then none else validate_enum host datum schema.enum path)
      then_check (elim schema.const [ none ↦ none | some c ↦ validate_const host datum c path ])
      then_check validate_by_type strict schema subs datum path
      then_check validate_composition datum subs path
      then_check (elim subs.if_schema [
        | none ↦ none
        | some i ↦ validate_conditional datum i subs path
      ])
