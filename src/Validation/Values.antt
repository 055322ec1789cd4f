-- ===== src/Validation/Values.antt =====
-- validation/schema.go: the checks of one value, without its parts.
use openbotstack_core.Base.{
  byte_length, show_nat, ℕ, zero, suc, String, ◌<>◌, Bool, true, false, not, Option, none, some,
  List, [], ◌∷◌, if◌then◌else◌, any, ◌==◌,
}
use openbotstack_core.Base.Int.{pos, ltb_ℤ}
use openbotstack_core.Value.{Value, bool, float64, string, array, object}
use openbotstack_core.Validation.{
  Keywords, Message, ValidationError, validation_error, Host, wrong_type, unsupported_type,
  invalid_pattern, pattern_mismatch, not_in_enum, not_const, too_short, too_long, below_minimum,
  above_maximum,
}

-- `if err := first; err != nil { return err }`, then the rest.
infixl 3 ◌then_check◌
abbrev pub ◌then_check◌ : Option ValidationError → Option ValidationError → Option ValidationError
some e then_check rest = some e
none then_check rest = rest

abbrev pub error_unless : Bool → ValidationError → Option ValidationError
error_unless true e = none
error_unless false e = some e

-- An error of a subschema, inside the message of the schema's own.
abbrev pub wrap :
    String → (ValidationError → Message) → Option ValidationError → Option ValidationError
wrap path message none = none
wrap path message (some e) = some (validation_error path (message e))

abbrev pub is_none : Option ValidationError → Bool
is_none none = true
is_none (some e) = false

abbrev pub is_object : Value → Bool
is_object (object _) = true
is_object _ = false

abbrev pub is_array : Value → Bool
is_array (array _) = true
is_array _ = false

abbrev pub is_string : Value → Bool
is_string (string _) = true
is_string _ = false

abbrev pub is_number : Value → Bool
is_number (float64 _) = true
is_number _ = false

abbrev pub is_boolean : Value → Bool
is_boolean (bool _) = true
is_boolean _ = false

-- `dotPath`
abbrev pub dot_path : String → String → String
dot_path parent child = if parent == "" then child else parent <> "." <> child

-- `fmt.Sprintf("%s[%d]", path, i)`
abbrev pub item_path : String → ℕ → String
item_path path i = path <> "[" <> show_nat i <> "]"

abbrev pub drop : ℕ → List Value → List Value
drop zero arr = arr
drop (suc n) [] = []
drop (suc n) (_ ∷ arr) = drop n arr

module _ (host : Host) where
  abbrev pub is_integer : Value → Bool
  is_integer (float64 f) = host.is_int64 f
  is_integer _ = false

  -- `validateType`
  unfoldable pub validate_type : Value → String → String → Option ValidationError
  validate_type datum expected path =
      let mismatch : ValidationError = validation_error path (wrong_type expected datum) in
      if expected == "object"
      then error_unless (is_object datum) mismatch
      else if expected == "array"
      then error_unless (is_array datum) mismatch
      else if expected == "string"
      then error_unless (is_string datum) mismatch
      else if expected == "number"
      then error_unless (is_number datum) mismatch
      else if expected == "boolean"
      then error_unless (is_boolean datum) mismatch
      else if expected == "integer"
      then error_unless (is_integer datum) mismatch
      else some (validation_error path (unsupported_type expected))

  -- `jsonEqual`
  unfoldable pub json_equal : Value → Value → Bool
  json_equal a b = host.marshal a == host.marshal b

  -- `validateEnum`
  unfoldable pub validate_enum : Value → List Value → String → Option ValidationError
  validate_enum datum enum path =
      error_unless (any (λ v. json_equal datum v) enum) (validation_error path (not_in_enum enum))

  -- `validateConst`
  unfoldable pub validate_const : Value → Value → String → Option ValidationError
  validate_const datum const_val path =
      error_unless (json_equal datum const_val) (validation_error path (not_const const_val))

  -- `validateString`
  unfoldable pub validate_string : Value → Keywords → String → Option ValidationError
  validate_string (string s) schema path =
      (elim schema.min_length [
        | none ↦ none
        | some m ↦
            error_unless (not (ltb_ℤ (pos (byte_length s)) m))
              (validation_error path (too_short (byte_length s) m))
      ])
      then_check (elim schema.max_length [
        | none ↦ none
        | some m ↦
            error_unless (not (ltb_ℤ m (pos (byte_length s))))
              (validation_error path (too_long (byte_length s) m))
      ])
      then_check (if schema.pattern == "" then none else elim (host.compile schema.pattern) [
        | none ↦ some (validation_error path (invalid_pattern schema.pattern))
        | some matches ↦
            error_unless (matches s) (validation_error path (pattern_mismatch schema.pattern))
      ])
  validate_string _ schema path = none

  -- `validateNumber`
  unfoldable pub validate_number : Value → Keywords → String → Option ValidationError
  validate_number (float64 f) schema path =
      (elim schema.minimum [
        | none ↦ none
        | some m ↦
            error_unless (not (host.float_lt f m)) (validation_error path (below_minimum f m))
      ])
      then_check (elim schema.maximum [
        | none ↦ none
        | some m ↦
            error_unless (not (host.float_lt m f)) (validation_error path (above_maximum f m))
      ])
  validate_number _ schema path = none
