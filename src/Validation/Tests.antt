-- ===== src/Validation/Tests.antt =====
-- Runs of the schema validator, and its theorems at concrete inputs.
use openbotstack_core.Base.{
  ◌==◌, if◌then◌else◌, Option, byte_length, lookup, String, true, false, none, some, List, [], ◌∷◌,
  ◌≡◌, refl, ltb,
}
use openbotstack_core.Base.Int.{pos}
use openbotstack_core.Value.{Value, null, float64, string, object, end_fields, field}
use openbotstack_core.Validation.{
  Keywords, JsonSchema, json_schema, nil, pointer, schema, end_schemas, property, end_properties,
  PropertyMap, nil_map, properties, Host, validation_error, unknown_property, missing_field,
}
use openbotstack_core.Validation.Values.{validate_string, validate_type, is_none}
use openbotstack_core.Validation.Checks.{
  count_matches, validate_known, validate_all_of, validate_composition, validate_properties,
  validate_required, validate_object, validate_by_type, validate_with,
}
use openbotstack_core.Validation.Schema.{validate_value}
use openbotstack_core.Validation.Conformance.{conforms}
use openbotstack_core.Validation.Conformance.Strictness.{IsMonotone, validate_value_strict}
use openbotstack_core.Validation.Input.{validate_input, is_accepted, validate_input-accepts}
use openbotstack_core.Validation.Conformance.Soundness.{validate_value-conforms}

-- Floats that are small natural numbers, JSON of texts, and the pattern that every text matches.
abbrev host : Host
host = record {
  float_lt = ltb;
  is_int64 = λ _. true;
  marshal = λ v. elim v [ string s ↦ s | _ ↦ "" ];
  compile = λ _. some (λ _. true);
}

abbrev keywords : String → List String → Keywords
keywords type required = record {
  schema_type = type;
  required = required;
  description = "";
  title = "";
  default = null;
  examples = [];
  min_length = none;
  max_length = none;
  pattern = "";
  minimum = none;
  maximum = none;
  enum = [];
  additional_properties = none;
  const = none;
  schema_uri = "";
  requires_evidence = [];
}

abbrev plain : Keywords → PropertyMap → JsonSchema
plain k props =
    json_schema k props nil end_schemas end_schemas end_schemas nil_map end_schemas nil nil nil

abbrev text : JsonSchema
text = plain (record (keywords "string" []) { min_length = some (pos 2) }) nil_map

-- An object with a name of two bytes or more.
abbrev named : JsonSchema
named =
    plain (keywords "object" ("name" ∷ []))
      (properties (property "name" (pointer text) end_properties))

abbrev ada : Value
ada = object (field "name" (string "Ada") end_fields)

abbrev aged : Value
aged = object (field "name" (string "Ada") (field "age" (float64 36) end_fields))

accepts_lax : validate_value host false named aged "" ≡ none
unfolding validate_value validate_with validate_type validate_by_type validate_object
    validate_required lookup validate_properties validate_string byte_length validate_composition
    validate_all_of
accepts_lax = refl

rejects_strict :
    validate_value host true named aged "" ≡ some (validation_error "age" unknown_property)
unfolding validate_value validate_with validate_type validate_by_type validate_object
    validate_required lookup validate_properties validate_string byte_length validate_composition
    validate_all_of validate_known
rejects_strict = refl

rejects_missing :
    validate_value host false named (object end_fields) "user"
    ≡ some (validation_error "user.name" missing_field)
unfolding validate_value validate_with validate_type validate_by_type validate_object
    validate_required lookup
rejects_missing = refl

-- A schema with oneOf: the strict mode can accept what the lax mode rejects, since a schema that
-- strict validation excludes is one match less.
abbrev one_shape : JsonSchema
one_shape =
    json_schema (keywords "object" []) nil_map nil end_schemas
      (schema (pointer named) (schema (pointer (plain (keywords "object" []) nil_map)) end_schemas))
      end_schemas nil_map end_schemas nil nil nil

strict_one_of :
    (is_none (validate_value host true one_shape aged "") ≡ true)
    × (is_none (validate_value host false one_shape aged "") ≡ false)
unfolding validate_value validate_with validate_type validate_by_type validate_object
    validate_required validate_properties validate_composition count_matches lookup validate_string
    byte_length validate_all_of validate_known
strict_one_of = (refl, refl)

validate_value-conforms_example :
    is_none (validate_value host true named aged "") ≡ conforms host true named aged
validate_value-conforms_example = validate_value-conforms host true named aged ""

validate_value_strict_example : is_none (validate_value host false named ada "user") ≡ true
unfolding IsMonotone validate_value validate_with validate_type validate_by_type validate_object
    validate_required lookup validate_properties validate_string byte_length validate_composition
    validate_all_of validate_known
validate_value_strict_example =
    validate_value_strict host named ada "" "user"
      (((tt, tt, tt, refl, tt, tt, refl), tt), tt, tt, refl, tt, tt, refl) refl

-- A decoder that knows one text.
abbrev decode : String → Option Value
decode s = if s == "ada" then some ada else none

validate_input-accepts_example :
    is_accepted (validate_input host true decode "ada" (pointer named))
    ≡ conforms host true named ada
validate_input-accepts_example = validate_input-accepts host true decode "ada" (pointer named)
