-- ===== src/Template/Numbers.antt =====
-- engine.go: tryParseInt, tryParseFloat, tryParseBool and CoerceStringNumbers. An int64 is its
-- two's complement word, and float64 is what the record `FloatOps` says.
use Prim.Native.Nat.{ℕ, ◌+◌, ◌-◌, ◌*◌, ◌%◌, ◌^◌}
use Prim.Native.Char.{Char, code}
use Prim.Native.String.{[], ◌∷◌}
use openbotstack_core.Base.{
  suc, String, Bool, true, false, not, ◌&&◌, ◌||◌, Option, none, some, Dict, if◌then◌else◌, ◌==◌,
  leb, nat_eq,
}
use openbotstack_core.Value.{Value, string, int64, float64, bool}
pub mod RoundTrip
pub mod Coercion

abbrev pub is_minus : Char → Bool
is_minus c = nat_eq (code c) 45

abbrev pub is_dot : Char → Bool
is_dot c = nat_eq (code c) 46

abbrev pub is_digit : Char → Bool
is_digit c = leb 48 (code c) && leb (code c) 57

unfoldable pub all_digits : String → Bool
all_digits [] = true
all_digits (c ∷ s) = is_digit c && all_digits s

-- The first loop of `tryParseInt`: digits, after a minus in front.
abbrev pub int_syntax : String → Bool
int_syntax [] = false
int_syntax (c ∷ s) = (is_minus c || is_digit c) && all_digits s

-- `n = n*10 + int64(c-'0')` and `n = -n`, in int64.
abbrev pub push_digit : ℕ → Char → ℕ
push_digit n c = (n * 10 + (code c - 48)) % 2 ^ 64

abbrev pub negate : ℕ → ℕ
negate n = (2 ^ 64 - n) % 2 ^ 64

-- The second loop of `tryParseInt`.
unfoldable pub scan : String → ℕ → ℕ
scan [] n = n
scan (c ∷ s) n = scan s (if is_minus c then n else push_digit n c)

abbrev pub starts_minus : String → Bool
starts_minus [] = false
starts_minus (c ∷ s) = is_minus c

-- `tryParseInt`
unfoldable pub try_parse_int : String → Option ℕ
try_parse_int s =
    if not (int_syntax s)
    then none
    else some (if starts_minus s then negate (scan s 0) else scan s 0)

-- `tryParseBool`
unfoldable pub try_parse_bool : String → Option Bool
try_parse_bool s = if s == "true" then some true else if s == "false" then some false else none

-- The float64 arithmetic that the parser calls, on the bits.
pub record FloatOps : Type 0 where
  pub of_digit : ℕ → ℕ
  pub ten : ℕ
  pub add : ℕ → ℕ → ℕ
  pub mul : ℕ → ℕ → ℕ
  pub div : ℕ → ℕ → ℕ
  pub neg : ℕ → ℕ

-- The first loop of `tryParseFloat` after the first character: digits and at most one dot, and
-- whether there was one.
unfoldable pub float_syntax : Bool → String → Bool
float_syntax has_dot [] = has_dot
float_syntax has_dot (c ∷ s) =
    let after = float_syntax true s in
    let rest = float_syntax has_dot s in
    if is_dot c then (if has_dot then false else after) else (is_digit c && rest)

-- A minus may stand in front.
abbrev pub float_text : String → Bool
float_text [] = false
float_text (c ∷ s) = if is_minus c then float_syntax false s else float_syntax false (c ∷ s)

module _ (ops : FloatOps) where
  -- The loop over the digits after the dot, with the place of the next one.
  unfoldable pub scan_fraction : String → ℕ → ℕ → ℕ
  scan_fraction [] frac place = frac
  scan_fraction (c ∷ s) frac place =
      scan_fraction s (ops.add frac (ops.div (ops.of_digit (code c - 48)) place))
        (ops.mul place ops.ten)

  -- The loop over the digits before the dot, and the fraction after it.
  unfoldable pub scan_float : String → ℕ → ℕ
  scan_float [] val = ops.add val (ops.of_digit 0)
  scan_float (c ∷ s) val =
      let rest = scan_float s (ops.add (ops.mul val ops.ten) (ops.of_digit (code c - 48))) in
      if is_dot c then ops.add val (scan_fraction s (ops.of_digit 0) ops.ten) else rest

  -- The value of a text with the syntax of a float.
  unfoldable pub float_value : String → ℕ
  float_value [] = ops.of_digit 0
  float_value (c ∷ s) =
      if is_minus c
      then ops.neg (scan_float s (ops.of_digit 0))
      else scan_float (c ∷ s) (ops.of_digit 0)

  -- `tryParseFloat`
  unfoldable pub try_parse_float : String → Option ℕ
  try_parse_float s = if float_text s then some (float_value s) else none

  -- The native value of a text, if it has one: the int first, then the float, then the bool.
  unfoldable pub native_value : String → Option Value
  native_value s = elim (try_parse_int s) [
    | some n ↦ some (int64 n)
    | none ↦ elim (try_parse_float s) [
      | some f ↦ some (float64 f)
      | none ↦ elim (try_parse_bool s) [ some b ↦ some (bool b) | none ↦ none ]
    ]
  ]

  -- One turn of the loop of `CoerceStringNumbers`: the new value, and whether it was coerced.
  unfoldable pub coerce_value : Value → Value × Bool
  coerce_value (string s) = elim (native_value s) [ some v ↦ (v, true) | none ↦ (string s, false) ]
  coerce_value v = (v, false)
