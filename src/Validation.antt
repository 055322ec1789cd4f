-- ===== src/Validation.antt =====
-- validation/schema.go and the type JSONSchema of ai/types/types.go.
use openbotstack_core.Base.{ℕ, String, Bool, Option, List}
use openbotstack_core.Base.Int.{ℤ}
use openbotstack_core.Value.{Value}
pub mod Values
pub mod Checks
pub mod Schema
pub mod Conformance
pub mod Input
mod Tests

-- The fields of `JSONSchema` that hold no schema. A float64 is kept by its bits.
pub record Keywords : Type 0 where
  pub schema_type : String
  pub required : List String
  pub description : String
  pub title : String
  pub default : Value
  pub examples : List Value
  pub min_length : Option ℤ
  pub max_length : Option ℤ
  pub pattern : String
  pub minimum : Option ℕ
  pub maximum : Option ℕ
  pub enum : List Value
  pub additional_properties : Option Bool
  pub const : Option Value
  pub schema_uri : String
  pub requires_evidence : List String

-- `JSONSchema`: its keywords, then properties, items, anyOf, oneOf, allOf, $defs, prefixItems, if,
-- then and else. A pointer may be nil, and so may the map of the properties.
mutual
  pub data JsonSchema : Type 0 where
    json_schema :
        Keywords
        → PropertyMap
        → Pointer
        → Schemas
        → Schemas
        → Schemas
        → PropertyMap
        → Schemas
        → Pointer
        → Pointer
        → Pointer
        → JsonSchema

  pub data Pointer : Type 0 where
    nil : Pointer
    pointer : JsonSchema → Pointer

  pub data Schemas : Type 0 where
    end_schemas : Schemas
    schema : Pointer → Schemas → Schemas

  pub data Properties : Type 0 where
    end_properties : Properties
    property : String → Pointer → Properties → Properties

  pub data PropertyMap : Type 0 where
    nil_map : PropertyMap
    properties : Properties → PropertyMap

-- `ValidationError`: the path of the field, and the message by what it says.
mutual
  pub data ValidationError : Type 0 where
    validation_error : String → Message → ValidationError

  pub data Message : Type 0 where
    wrong_type : String → Value → Message
    unsupported_type invalid_pattern pattern_mismatch : String → Message
    not_in_enum : List Value → Message
    not_const : Value → Message
    too_short too_long : ℕ → ℤ → Message
    below_minimum above_maximum : ℕ → ℕ → Message
    missing_field unknown_property no_any_of : Message
    not_one_of : ℕ → Message
    not_all_of then_failed else_failed : ValidationError → Message

-- What the validator calls: the order of float64, the test that a float64 equals its conversion to
-- int64 and back, json.Marshal, and regexp.Compile with the matcher that it returns.
pub record Host : Type 0 where
  pub float_lt : ℕ → ℕ → Bool
  pub is_int64 : ℕ → Bool
  pub marshal : Value → String
  pub compile : String → Option (String → Bool)
