-- ===== src/Template/Numbers/Coercion.antt =====
-- engine.go: CoerceStringNumbers on the arguments of a step.
use openbotstack_core.Base.{
  refl, inr, inl, Bool-cases, ℕ, suc, String, Option, none, some, [], ◌∷◌, ◌≡◌, Dict, lookup,
  if◌then◌else◌, ◌==◌,
}
use openbotstack_core.Value.{Value}
use openbotstack_core.Template.Numbers.{FloatOps, coerce_value}

module _ (ops : FloatOps) where
  -- `CoerceStringNumbers`: the arguments after the call, and how many were coerced.
  unfoldable pub coerce_string_numbers : Dict Value → Dict Value × ℕ
  coerce_string_numbers [] = ([], 0)
  coerce_string_numbers ((key, val) ∷ args) =
      let (rest, coerced) = coerce_string_numbers args in
      let (v, changed) = coerce_value ops val in
      ((key, v) ∷ rest, if changed then suc coerced else coerced)

  abbrev pub map_value : (Value → Value) → Option Value → Option Value
  map_value f none = none
  map_value f (some v) = some (f v)

  -- Every argument is coerced by itself, whatever the order of the visit.
  pub lookup-coerce_string_numbers :
      (key : String) (args : Dict Value)
      → lookup key (coerce_string_numbers args).0
        ≡ map_value (λ v. (coerce_value ops v).0) (lookup key args)
  unfolding coerce_string_numbers lookup
  lookup-coerce_string_numbers key [] = refl
  lookup-coerce_string_numbers key ((k, v) ∷ args) = elim (Bool-cases (k == key)) [
    | inl h ↦ rw h refl
    | inr h ↦ rw h (lookup-coerce_string_numbers key args)
  ]
