-- ===== src/Validation/Schema.antt =====
-- validation/schema.go: the validator of a schema, by recursion on the schema.
use openbotstack_core.Base.{Bool, Option, none, some, List, [], ◌∷◌, Dict}
use openbotstack_core.Validation.{
  JsonSchema, json_schema, Pointer, nil, pointer, Schemas, end_schemas, schema, Properties,
  end_properties, property, PropertyMap, nil_map, properties, Host,
}
use openbotstack_core.Validation.Checks.{Validator, validate_with}

-- `validateValue`, and `validateValueStrict` where `strict` holds. A nil schema accepts everything.
unfoldable mutual
  pub validate_value : Host → Bool → JsonSchema → Validator
  validate_value host strict (json_schema k props items any_of one_of all_of _ prefix_items i t e) =
      validate_with host strict k (record {
        properties = property_map host strict props;
        items = optional host strict items;
        any_of = validators host strict any_of;
        one_of = validators host strict one_of;
        all_of = validators host strict all_of;
        prefix_items = validators host strict prefix_items;
        if_schema = optional host strict i;
        then_schema = optional host strict t;
        else_schema = optional host strict e;
      })

  pub validator : Host → Bool → Pointer → Validator
  validator host strict nil = λ _ _. none
  validator host strict (pointer s) = validate_value host strict s

  pub optional : Host → Bool → Pointer → Option Validator
  optional host strict nil = none
  optional host strict (pointer s) = some (validate_value host strict s)

  pub validators : Host → Bool → Schemas → List Validator
  validators host strict end_schemas = []
  validators host strict (schema p ss) = validator host strict p ∷ validators host strict ss

  pub property_validators : Host → Bool → Properties → Dict Validator
  property_validators host strict end_properties = []
  property_validators host strict (property k p ps) =
      (k, validator host strict p) ∷ property_validators host strict ps

  pub property_map : Host → Bool → PropertyMap → Option (Dict Validator)
  property_map host strict nil_map = none
  property_map host strict (properties ps) = some (property_validators host strict ps)
