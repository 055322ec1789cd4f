-- ===== src/Validation/Conformance/Soundness.antt =====
-- validation/schema.go: ValidateValue and its strict variant return no error exactly where the value
-- conforms to the schema.
use openbotstack_core.Validation.Conformance.Scalars.{
  is_none-if, bound-Agree, validate_type-Agree, validate_string-Agree, validate_number-Agree,
}
use openbotstack_core.Base.{
  String, Bool, true, false, ◌||◌, Option, none, some, ◌≡◌, refl, ap, ◌∙◌, Dict, if◌then◌else◌,
  is_some, is_empty, any, ◌==◌,
}
use openbotstack_core.Value.{Value}
use openbotstack_core.Validation.{
  not_in_enum, not_const, validation_error, ValidationError, Host, Keywords, JsonSchema,
  json_schema, Pointer, nil, pointer, Schemas, end_schemas, schema, Properties, end_properties,
  property, PropertyMap, nil_map, properties,
}
use openbotstack_core.Validation.Values.{
  json_equal, is_none, validate_type, validate_enum, validate_const,
}
use openbotstack_core.Validation.Checks.{
  validate_conditional, Validator, Subs, validate_by_type, validate_with, or_no_properties,
}
use openbotstack_core.Validation.Schema.{
  validate_value, validator, optional, validators, property_validators, property_map,
}
use openbotstack_core.Validation.Conformance.{
  Shape, Shapes, when_set, or_no_shapes, fits_by_type, fits_conditional, fits_with, conforms, shape,
  optional_shape, shapes, property_shapes, shape_map,
}
use openbotstack_core.Validation.Conformance.Loops.{
  Agree, AgreeOption, AgreeAll, AgreeDict, and_cong, is_none-then_check, is_none-unless,
}
use openbotstack_core.Validation.Conformance.Agreement.{
  validate_array-Agree, validate_object-Agree, validate_composition-Agree,
  validate_conditional-Agree,
}

abbrev AgreeMap : Option (Dict Validator) → Option (Dict Shape) → Type 0
AgreeMap o s = AgreeDict (or_no_properties o) (or_no_shapes s) × (is_some o ≡ is_some s)

-- The subschemas agree.
record AgreeSubs (subs : Subs) (s : Shapes) : Type 0 where
  properties_agree : AgreeMap subs.properties s.properties
  items_agree : AgreeOption subs.items s.items
  any_of_agree : AgreeAll subs.any_of s.any_of
  one_of_agree : AgreeAll subs.one_of s.one_of
  all_of_agree : AgreeAll subs.all_of s.all_of
  prefix_items_agree : AgreeAll subs.prefix_items s.prefix_items
  if_agree : AgreeOption subs.if_schema s.if_shape
  then_agree : AgreeOption subs.then_schema s.then_shape
  else_agree : AgreeOption subs.else_schema s.else_shape

module _ (host : Host) where
  validate_by_type-Agree :
      (strict : Bool) (k : Keywords) (subs : Subs) (s : Shapes)
      → AgreeSubs subs s
      → (datum : Value) (path : String)
      → is_none (validate_by_type host strict k subs datum path)
        ≡ fits_by_type host strict k s datum
  unfolding validate_by_type fits_by_type
  validate_by_type-Agree strict k subs s a datum path =
      rw
        (
          is_none-if,
          is_none-if,
          is_none-if,
          is_none-if,
          validate_string-Agree host datum k path,
          validate_number-Agree host datum k path,
          validate_array-Agree subs s a.items_agree a.prefix_items_agree datum path,
          validate_object-Agree strict k subs s a.properties_agree.0 datum path,
          a.properties_agree.1,
        )
        refl

  conditional-Agree :
      (subs : Subs) (s : Shapes)
      → AgreeSubs subs s
      → (o : Option Validator) (i : Option Shape) → AgreeOption o i
      → (datum : Value) (path : String)
      → is_none (elim o [ none ↦ none | some v ↦ validate_conditional datum v subs path ])
        ≡ when_set i (λ p.
          if p datum
          then when_set s.then_shape (λ q. q datum)
          else when_set s.else_shape (λ q. q datum))
  conditional-Agree subs s a none none _ datum path = refl
  conditional-Agree subs s a (some v) (some p) b datum path =
      validate_conditional-Agree subs s v p b a.then_agree a.else_agree datum path
  conditional-Agree subs s a none (some p) b datum path = absurd b
  conditional-Agree subs s a (some v) none b datum path = absurd b

  is_none-or :
      (b : Bool) (o : Option ValidationError) → is_none (if b then none else o) ≡ (b || is_none o)
  is_none-or true o = refl
  is_none-or false o = refl

  validate_with-Agree :
      (strict : Bool) (k : Keywords) (subs : Subs) (s : Shapes)
      → AgreeSubs subs s
      → Agree (validate_with host strict k subs) (fits_with host strict k s)
  unfolding validate_with fits_with fits_conditional validate_enum validate_const
  validate_with-Agree strict k subs s a datum path =
      is_none-then_check _ _
      ∙ and_cong
          (is_none-then_check _ _
            ∙ and_cong
                (is_none-then_check _ _
                  ∙ and_cong
                      (is_none-then_check _ _
                        ∙ and_cong
                            (is_none-then_check _ _
                              ∙ and_cong
                                  (is_none-or (k.schema_type == "")
                                      (validate_type host datum k.schema_type path)
                                    ∙ ap (λ b. k.schema_type == "" || b)
                                        (validate_type-Agree host datum k.schema_type path))
                                  (is_none-unless (is_empty k.enum)
                                    (any (λ v. json_equal host datum v) k.enum)
                                    (validation_error path (not_in_enum k.enum))))
                            (bound-Agree k.const (λ c. json_equal host datum c)
                              (λ c. validation_error path (not_const c))))
                      (validate_by_type-Agree strict k subs s a datum path))
                (validate_composition-Agree subs s a.any_of_agree a.one_of_agree a.all_of_agree
                  datum path))
          (conditional-Agree subs s a subs.if_schema s.if_shape a.if_agree datum path)

mutual
  unfolding validate_value conforms

  validate_value-Agree :
      (host : Host) (strict : Bool) (s : JsonSchema)
      → Agree (validate_value host strict s) (conforms host strict s)
  validate_value-Agree host strict
        (json_schema k props items any_of one_of all_of _ prefix_items i t e) =
      validate_with-Agree host strict k _ _ (record {
        properties_agree = property_map-Agree host strict props;
        items_agree = optional-Agree host strict items;
        any_of_agree = validators-Agree host strict any_of;
        one_of_agree = validators-Agree host strict one_of;
        all_of_agree = validators-Agree host strict all_of;
        prefix_items_agree = validators-Agree host strict prefix_items;
        if_agree = optional-Agree host strict i;
        then_agree = optional-Agree host strict t;
        else_agree = optional-Agree host strict e;
      })

  validator-Agree :
      (host : Host) (strict : Bool) (p : Pointer)
      → Agree (validator host strict p) (shape host strict p)
  validator-Agree host strict nil = λ _ _. refl
  validator-Agree host strict (pointer s) = validate_value-Agree host strict s

  optional-Agree :
      (host : Host) (strict : Bool) (p : Pointer)
      → AgreeOption (optional host strict p) (optional_shape host strict p)
  optional-Agree host strict nil = tt
  optional-Agree host strict (pointer s) = validate_value-Agree host strict s

  validators-Agree :
      (host : Host) (strict : Bool) (ss : Schemas)
      → AgreeAll (validators host strict ss) (shapes host strict ss)
  validators-Agree host strict end_schemas = tt
  validators-Agree host strict (schema p ss) =
      (validator-Agree host strict p, validators-Agree host strict ss)

  property_validators-Agree :
      (host : Host) (strict : Bool) (ps : Properties)
      → AgreeDict (property_validators host strict ps) (property_shapes host strict ps)
  property_validators-Agree host strict end_properties = tt
  property_validators-Agree host strict (property k p ps) =
      (refl, validator-Agree host strict p, property_validators-Agree host strict ps)

  property_map-Agree :
      (host : Host) (strict : Bool) (m : PropertyMap)
      → AgreeMap (property_map host strict m) (shape_map host strict m)
  property_map-Agree host strict nil_map = (tt, refl)
  property_map-Agree host strict (properties ps) = (property_validators-Agree host strict ps, refl)

-- For every host, schema, value and path, the validator returns no error exactly if the value
-- conforms to the schema, in the lax mode and in the strict one; so the path and the order of the
-- checks only decide which error is returned.
pub validate_value-conforms :
    (host : Host) (strict : Bool) (s : JsonSchema) (datum : Value) (path : String)
    → is_none (validate_value host strict s datum path) ≡ conforms host strict s datum
validate_value-conforms host strict s = validate_value-Agree host strict s
