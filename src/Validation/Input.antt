-- ===== src/Validation/Input.antt =====
-- validation/schema.go: ValidateInput and ValidateInputStrict, which decode the JSON first, and
-- ValidateValue, which does not.
use openbotstack_core.Base.{
  String, Bool, true, false, Option, none, some, ◌≡◌, refl, Option-cases, inl, inr, ◌∙◌,
}
use openbotstack_core.Value.{Value}
use openbotstack_core.Validation.{Host, Pointer, nil, pointer, ValidationError}
use openbotstack_core.Validation.Values.{is_none}
use openbotstack_core.Validation.Schema.{validator, validate_value}
use openbotstack_core.Validation.Conformance.{conforms}
use openbotstack_core.Validation.Conformance.Soundness.{validate_value-conforms}

pub data InputError : Type 0 where
  invalid_json : InputError
  invalid_value : ValidationError → InputError

abbrev pub as_input_error : Option ValidationError → Option InputError
as_input_error none = none
as_input_error (some e) = some (invalid_value e)

-- `ValidateInput`, and `ValidateInputStrict` where `strict` holds; `unmarshal` is json.Unmarshal.
unfoldable pub validate_input :
    Host → Bool → (String → Option Value) → String → Pointer → Option InputError
validate_input host strict unmarshal input nil = none
validate_input host strict unmarshal input (pointer s) = elim (unmarshal input) [
  | none ↦ some invalid_json
  | some v ↦ as_input_error (validator host strict (pointer s) v "")
]

-- `ValidateValue`, the lax validator at the empty path.
abbrev pub validate_decoded : Host → Value → Pointer → Option ValidationError
validate_decoded host v p = validator host false p v ""

abbrev pub is_accepted : Option InputError → Bool
is_accepted none = true
is_accepted (some e) = false

is_accepted-as_input_error :
    (o : Option ValidationError) → is_accepted (as_input_error o) ≡ is_none o
is_accepted-as_input_error none = refl
is_accepted-as_input_error (some e) = refl

-- The texts that a schema accepts: all where there is no schema, and else those that decode to a
-- value that conforms to it.
abbrev pub accepts : Host → Bool → Option Value → Pointer → Bool
accepts host strict v nil = true
accepts host strict none (pointer s) = false
accepts host strict (some v) (pointer s) = conforms host strict s v

-- ValidateInput and its strict variant accept exactly the texts that decode to a value that conforms
-- to the schema, and every text where the schema is nil.
pub validate_input-accepts :
    (host : Host) (strict : Bool) (unmarshal : String → Option Value) (input : String) (p : Pointer)
    → is_accepted (validate_input host strict unmarshal input p)
      ≡ accepts host strict (unmarshal input) p
unfolding validate_input validator
validate_input-accepts host strict unmarshal input nil = refl
validate_input-accepts host strict unmarshal input (pointer s) =
    elim (Option-cases (unmarshal input)) [
      | inl e ↦ rw (e, validate_input) refl
      | inr (v, e) ↦
          rw (e, validate_input)
            (is_accepted-as_input_error (validate_value host strict s v "")
              ∙ validate_value-conforms host strict s v "")
    ]
