-- ===== src/Validation/Conformance/Strictness.antt =====
-- validation/schema.go: where the strict mode only rejects more. A schema with oneOf or if can turn
-- the rejection of a subschema into an acceptance, so they are left out.
use openbotstack_core.Validation.Conformance.Inclusion.{
  Implies, ImpliesOption, ImpliesAll, ImpliesDict, ImpliesShapes, fits_array-Implies,
  fits_object-Implies, fits_composition-Implies,
}
use openbotstack_core.Base.{String, true, false, ◌≡◌, refl, sym, ap, ◌∙◌, is_some, arith}
use openbotstack_core.Value.{Value}
use openbotstack_core.Validation.{
  Host, Keywords, JsonSchema, json_schema, Pointer, nil, pointer, Schemas, end_schemas, schema,
  Properties, end_properties, property, PropertyMap, nil_map, properties,
}
use openbotstack_core.Validation.Values.{is_none}
use openbotstack_core.Validation.Schema.{validate_value}
use openbotstack_core.Validation.Conformance.{
  Shapes, fits_conditional, fits_by_type, fits_with, or_no_shapes, conforms, shape, optional_shape,
  shapes, property_shapes, shape_map,
}
use openbotstack_core.Validation.Conformance.Soundness.{validate_value-conforms}

module _ (host : Host) where
  fits_by_type-Implies :
      (k : Keywords) (s t : Shapes)
      → ImpliesShapes s t
      → Implies (fits_by_type host true k s) (fits_by_type host false k t)
  unfolding fits_by_type
  fits_by_type-Implies k s t f datum h =
      ground (arith, fits_array-Implies s t f datum, fits_object-Implies k s t f datum, f.same_map)

  fits_with-Implies :
      (k : Keywords) (s t : Shapes)
      → ImpliesShapes s t
      → Implies (fits_with host true k s) (fits_with host false k t)
  unfolding fits_with fits_conditional
  fits_with-Implies k s t f datum h =
      rw f.no_if
        (ground (arith, fits_by_type-Implies k s t f datum, fits_composition-Implies s t f datum))

-- A schema without oneOf and if, and so its subschemas.
unfoldable mutual
  pub IsMonotone : JsonSchema → Type 0
  IsMonotone (json_schema k props items any_of one_of all_of _ prefix_items i t e) =
      IsMonotoneMap props
      × IsMonotonePointer items
      × IsMonotoneAll any_of
      × (one_of ≡ end_schemas)
      × IsMonotoneAll all_of
      × IsMonotoneAll prefix_items
      × (i ≡ nil)

  pub IsMonotonePointer : Pointer → Type 0
  IsMonotonePointer nil = Unit
  IsMonotonePointer (pointer s) = IsMonotone s

  pub IsMonotoneAll : Schemas → Type 0
  IsMonotoneAll end_schemas = Unit
  IsMonotoneAll (schema p ss) = IsMonotonePointer p × IsMonotoneAll ss

  pub IsMonotoneProperties : Properties → Type 0
  IsMonotoneProperties end_properties = Unit
  IsMonotoneProperties (property _ p ps) = IsMonotonePointer p × IsMonotoneProperties ps

  pub IsMonotoneMap : PropertyMap → Type 0
  IsMonotoneMap nil_map = Unit
  IsMonotoneMap (properties ps) = IsMonotoneProperties ps

mutual
  unfolding conforms IsMonotone

  conforms-Implies :
      (host : Host) (s : JsonSchema)
      → IsMonotone s
      → Implies (conforms host true s) (conforms host false s)
  conforms-Implies host (json_schema k props items any_of one_of all_of _ prefix_items i t e)
        (mp, mi, ma, mo, mall, mpre, mif) =
      fits_with-Implies host k _ _ (record {
        properties_imply = (map-Implies host props mp).0;
        same_map = (map-Implies host props mp).1;
        items_imply = optional-Implies host items mi;
        any_of_imply = shapes-Implies host any_of ma;
        no_one_of = ap (shapes host false) mo;
        all_of_imply = shapes-Implies host all_of mall;
        prefix_items_imply = shapes-Implies host prefix_items mpre;
        no_if = ap (optional_shape host false) mif;
      })

  shape-Implies :
      (host : Host) (p : Pointer)
      → IsMonotonePointer p
      → Implies (shape host true p) (shape host false p)
  shape-Implies host nil m = λ _ h. h
  shape-Implies host (pointer s) m = conforms-Implies host s m

  optional-Implies :
      (host : Host) (p : Pointer)
      → IsMonotonePointer p
      → ImpliesOption (optional_shape host true p) (optional_shape host false p)
  optional-Implies host nil m = tt
  optional-Implies host (pointer s) m = conforms-Implies host s m

  shapes-Implies :
      (host : Host) (ss : Schemas)
      → IsMonotoneAll ss
      → ImpliesAll (shapes host true ss) (shapes host false ss)
  shapes-Implies host end_schemas m = tt
  shapes-Implies host (schema p ss) (m, ms) = (shape-Implies host p m, shapes-Implies host ss ms)

  properties_shapes-Implies :
      (host : Host) (ps : Properties)
      → IsMonotoneProperties ps
      → ImpliesDict (property_shapes host true ps) (property_shapes host false ps)
  properties_shapes-Implies host end_properties m = tt
  properties_shapes-Implies host (property k p ps) (m, ms) =
      (refl, shape-Implies host p m, properties_shapes-Implies host ps ms)

  map-Implies :
      (host : Host) (m : PropertyMap)
      → IsMonotoneMap m
      → ImpliesDict (or_no_shapes (shape_map host true m)) (or_no_shapes (shape_map host false m))
        × (is_some (shape_map host true m) ≡ is_some (shape_map host false m))
  map-Implies host nil_map m = (tt, refl)
  map-Implies host (properties ps) m = (properties_shapes-Implies host ps m, refl)

-- A value that the strict validator accepts is accepted by the lax one, at any path, if neither the
-- schema nor a schema inside it has a oneOf or an if.
pub validate_value_strict :
    (host : Host) (s : JsonSchema) (datum : Value) (path other : String)
    → IsMonotone s
    → is_none (validate_value host true s datum path) ≡ true
    → is_none (validate_value host false s datum other) ≡ true
validate_value_strict host s datum path other m h =
    validate_value-conforms host false s datum other
    ∙ conforms-Implies host s m datum (sym (validate_value-conforms host true s datum path) ∙ h)
