-- ===== src/Validation/Conformance/Scalars.antt =====
-- validation/schema.go: the checks of one value, without its parts, against its shape.
use openbotstack_core.Base.{
  byte_length, String, Bool, true, false, not, ◌||◌, Option, none, some, ◌≡◌, refl, ◌∙◌,
  if◌then◌else◌, ◌==◌,
}
use openbotstack_core.Value.{Value, float64, string}
use openbotstack_core.Base.Int.{pos, ltb_ℤ}
use openbotstack_core.Validation.{
  validation_error, below_minimum, above_maximum, too_short, too_long, invalid_pattern,
  pattern_mismatch, ValidationError, Host, Keywords,
}
use openbotstack_core.Validation.Values.{
  error_unless, is_none, validate_type, validate_string, validate_number,
}
use openbotstack_core.Validation.Conformance.{when_set, fits_type, fits_string, fits_number}
use openbotstack_core.Validation.Conformance.Loops.{
  and_cong, is_none-then_check, is_none-error_unless,
}

pub is_none-if :
    (b : Bool) (x y : Option ValidationError)
    → is_none (if b then x else y) ≡ (if b then is_none x else is_none y)
is_none-if true x y = refl
is_none-if false x y = refl

pub bound-Agree :
    {A : Type 0} (o : Option A) (demand : A → Bool) (e : A → ValidationError)
    → is_none (elim o [ none ↦ none | some m ↦ error_unless (demand m) (e m) ]) ≡ when_set o demand
bound-Agree none demand e = refl
bound-Agree (some m) demand e = is_none-error_unless (demand m) (e m)

pub pattern-Agree :
    (b : Bool) (o : Option (String → Bool)) (s : String) (e f : ValidationError)
    → is_none (if b then none else elim o [ none ↦ some e | some m ↦ error_unless (m s) f ])
      ≡ (b || elim o [ none ↦ false | some m ↦ m s ])
pattern-Agree true o s e f = refl
pattern-Agree false none s e f = refl
pattern-Agree false (some m) s e f = is_none-error_unless (m s) f

module _ (host : Host) where
  pub validate_type-Agree :
      (datum : Value) (expected path : String)
      → is_none (validate_type host datum expected path) ≡ fits_type host expected datum
  unfolding validate_type fits_type
  validate_type-Agree datum expected path =
      rw
        (
          is_none-if, is_none-if, is_none-if, is_none-if, is_none-if, is_none-if,
          is_none-error_unless, is_none-error_unless, is_none-error_unless, is_none-error_unless,
          is_none-error_unless, is_none-error_unless,
        )
        refl

  pub validate_string-Agree :
      (datum : Value) (k : Keywords) (path : String)
      → is_none (validate_string host datum k path) ≡ fits_string host k datum
  unfolding validate_string fits_string
  validate_string-Agree (string s) k path =
      is_none-then_check _ _
      ∙ and_cong
          (is_none-then_check _ _
            ∙ and_cong
                (bound-Agree k.min_length (λ m. not (ltb_ℤ (pos (byte_length s)) m))
                  (λ m. validation_error path (too_short (byte_length s) m)))
                (bound-Agree k.max_length (λ m. not (ltb_ℤ m (pos (byte_length s))))
                  (λ m. validation_error path (too_long (byte_length s) m))))
          (pattern-Agree (k.pattern == "") (host.compile k.pattern) s
            (validation_error path (invalid_pattern k.pattern))
            (validation_error path (pattern_mismatch k.pattern)))
  validate_string-Agree _ k path = refl

  pub validate_number-Agree :
      (datum : Value) (k : Keywords) (path : String)
      → is_none (validate_number host datum k path) ≡ fits_number host k datum
  unfolding validate_number fits_number
  validate_number-Agree (float64 f) k path =
      is_none-then_check _ _
      ∙ and_cong
          (bound-Agree k.minimum (λ m. not (host.float_lt f m))
            (λ m. validation_error path (below_minimum f m)))
          (bound-Agree k.maximum (λ m. not (host.float_lt m f))
            (λ m. validation_error path (above_maximum f m)))
  validate_number-Agree _ k path = refl
