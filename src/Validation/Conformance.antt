-- ===== src/Validation/Conformance.antt =====
-- What it means for a value to conform to a schema, as a Boolean without errors, paths or an order
-- of the checks, and that the validator returns an error exactly where a value does not conform.
use openbotstack_core.Base.{
  ℕ, zero, suc, ◌+◌, String, Bool, true, false, not, ◌&&◌, ◌||◌, Option, none, some, List, [], ◌∷◌,
  Dict, lookup, if◌then◌else◌, is_some, is_empty, length, any, all, ◌==◌, nat_eq, byte_length,
}
use openbotstack_core.Base.Int.{pos, ltb_ℤ}
use openbotstack_core.Value.{Value, float64, string, array, object, elements, entries}
use openbotstack_core.Validation.{
  Keywords, Host, JsonSchema, json_schema, Pointer, nil, pointer, Schemas, end_schemas, schema,
  Properties, end_properties, property, PropertyMap, nil_map, properties,
}
use openbotstack_core.Validation.Values.{
  is_object, is_array, is_string, is_number, is_boolean, is_integer, json_equal, drop,
}
pub mod Loops
pub mod Agreement
pub mod Scalars
pub mod Soundness
pub mod Inclusion
pub mod Strictness

-- A schema as a set of values.
abbrev pub Shape : Type 0
Shape = Value → Bool

-- The shapes of the subschemas of a schema.
pub record Shapes : Type 0 where
  pub properties : Option (Dict Shape)
  pub items : Option Shape
  pub any_of : List Shape
  pub one_of : List Shape
  pub all_of : List Shape
  pub prefix_items : List Shape
  pub if_shape : Option Shape
  pub then_shape : Option Shape
  pub else_shape : Option Shape

-- An absent keyword demands nothing.
abbrev pub when_set {ℓ} : {A : Type ℓ} → Option A → (A → Bool) → Bool
when_set none demand = true
when_set (some a) demand = demand a

-- The elements fit the shapes at their positions, as far as both go.
unfoldable pub fits_each : List Shape → List Value → Bool
fits_each [] arr = true
fits_each (_ ∷ _) [] = true
fits_each (p ∷ ps) (v ∷ arr) = p v && fits_each ps arr

unfoldable pub fits_array : Shapes → Value → Bool
fits_array shapes (array vs) =
    fits_each shapes.prefix_items (elements vs)
    && when_set shapes.items (λ p. all p (drop (length shapes.prefix_items) (elements vs)))
fits_array shapes _ = true

abbrev pub or_no_shapes : Option (Dict Shape) → Dict Shape
or_no_shapes none = []
or_no_shapes (some props) = props

-- additionalProperties is there, and false.
abbrev pub closed : Option Bool → Bool
closed (some false) = true
closed _ = false

-- Every required field is there, every property that is there fits, and where unknown keys are
-- rejected, every key is a property's.
unfoldable pub fits_object : Bool → Keywords → Shapes → Value → Bool
fits_object strict k shapes (object fields) =
    let obj : Dict Value = entries fields in
    let props : Dict Shape = or_no_shapes shapes.properties in
    all (λ req. is_some (lookup req obj)) k.required
    && all (λ (key, p). when_set (lookup key obj) p) props
    && (not ((strict || closed k.additional_properties) && not (is_empty props))
        || all (λ (key, _). is_some (lookup key props)) obj)
fits_object strict k shapes _ = true

unfoldable pub count_fits : List Shape → Value → ℕ
count_fits [] datum = 0
count_fits (p ∷ ps) datum = (if p datum then 1 else 0) + count_fits ps datum

-- anyOf, oneOf and allOf.
unfoldable pub fits_composition : Shapes → Value → Bool
fits_composition shapes datum =
    (is_empty shapes.any_of || any (λ p. p datum) shapes.any_of)
    && (is_empty shapes.one_of || nat_eq (count_fits shapes.one_of datum) 1)
    && all (λ p. p datum) shapes.all_of

unfoldable pub fits_conditional : Shapes → Value → Bool
fits_conditional shapes datum = when_set shapes.if_shape (λ i.
    if i datum
    then when_set shapes.then_shape (λ p. p datum)
    else when_set shapes.else_shape (λ p. p datum))

module _ (host : Host) where
  unfoldable pub fits_type : String → Value → Bool
  fits_type expected datum =
      if expected == "object"
      then is_object datum
      else if expected == "array"
      then is_array datum
      else if expected == "string"
      then is_string datum
      else if expected == "number"
      then is_number datum
      else if expected == "boolean"
      then is_boolean datum
      else if expected == "integer"
      then is_integer host datum
      else false

  unfoldable pub fits_string : Keywords → Value → Bool
  fits_string k (string s) =
      when_set k.min_length (λ m. not (ltb_ℤ (pos (byte_length s)) m))
      && when_set k.max_length (λ m. not (ltb_ℤ m (pos (byte_length s))))
      && (k.pattern == ""
          || elim (host.compile k.pattern) [ none ↦ false | some matches ↦ matches s ])
  fits_string k _ = true

  unfoldable pub fits_number : Keywords → Value → Bool
  fits_number k (float64 f) =
      when_set k.minimum (λ m. not (host.float_lt f m))
      && when_set k.maximum (λ m. not (host.float_lt m f))
  fits_number k _ = true

  -- The constraints that belong to the type of the schema.
  unfoldable pub fits_by_type : Bool → Keywords → Shapes → Value → Bool
  fits_by_type strict k shapes datum =
      if k.schema_type == "string"
      then fits_string k datum
      else if k.schema_type == "number" || k.schema_type == "integer"
      then fits_number k datum
      else if k.schema_type == "array"
      then fits_array shapes datum
      else if k.schema_type == "object" || (k.schema_type == "" && is_some shapes.properties)
      then fits_object strict k shapes datum
      else true

  unfoldable pub fits_with : Bool → Keywords → Shapes → Shape
  fits_with strict k shapes datum =
      (k.schema_type == "" || fits_type k.schema_type datum)
      && (is_empty k.enum || any (λ v. json_equal host datum v) k.enum)
      && when_set k.const (λ c. json_equal host datum c)
      && fits_by_type strict k shapes datum
      && fits_composition shapes datum
      && fits_conditional shapes datum

-- A value conforms to a schema, in the strict reading or not.
unfoldable mutual
  pub conforms : Host → Bool → JsonSchema → Shape
  conforms host strict (json_schema k props items any_of one_of all_of _ prefix_items i t e) =
      fits_with host strict k (record {
        properties = shape_map host strict props;
        items = optional_shape host strict items;
        any_of = shapes host strict any_of;
        one_of = shapes host strict one_of;
        all_of = shapes host strict all_of;
        prefix_items = shapes host strict prefix_items;
        if_shape = optional_shape host strict i;
        then_shape = optional_shape host strict t;
        else_shape = optional_shape host strict e;
      })

  pub shape : Host → Bool → Pointer → Shape
  shape host strict nil = λ _. true
  shape host strict (pointer s) = conforms host strict s

  pub optional_shape : Host → Bool → Pointer → Option Shape
  optional_shape host strict nil = none
  optional_shape host strict (pointer s) = some (conforms host strict s)

  pub shapes : Host → Bool → Schemas → List Shape
  shapes host strict end_schemas = []
  shapes host strict (schema p ss) = shape host strict p ∷ shapes host strict ss

  pub property_shapes : Host → Bool → Properties → Dict Shape
  property_shapes host strict end_properties = []
  property_shapes host strict (property k p ps) =
      (k, shape host strict p) ∷ property_shapes host strict ps

  pub shape_map : Host → Bool → PropertyMap → Option (Dict Shape)
  shape_map host strict nil_map = none
  shape_map host strict (properties ps) = some (property_shapes host strict ps)
