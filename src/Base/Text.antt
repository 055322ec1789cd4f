-- ===== src/Base/Text.antt =====
-- The functions of Go's `strings` that the program calls, on texts as lists of characters.
use Prim.Native.String.{String, [], ◌∷◌, ◌++◌ as ◌<>◌, compare, count}
use Prim.Native.Char.{Char, code}
use Prim.Native.Nat.{◌%◌, ◌/◌, suc, zero, ◌+◌, ℕ, Ordering}
use mathlib.Core.Path.{◌≡◌, refl, sym, ap, ◌∙◌}
use mathlib.Core.Logic.{inl, inr, ◌≢◌}
use mathlib.Core.Bool.{Bool, true, false, ◌&&◌, ◌||◌}
use native.Mathlib.Omega.{arith}
use text.Mathlib.Text.{◌==◌}
use text.Mathlib.TextEquality.{eq_iff}
use text.Mathlib.TextLemmas.{nil-append, cons-append, length-cons, length-append}
use text.Mathlib.TextPositions.{eq_refl}
use openbotstack_core.Base.Tests.{ltb, if◌then◌else◌, nat_eq, Bool-cases}

-- `s < t`, Go's order of strings by their bytes.
abbrev pub str_lt : String → String → Bool
str_lt s t = elim (compare s t) [ Ordering.lt ↦ true | _ ↦ false ]

abbrev pub str_gt : String → String → Bool
str_gt s t = elim (compare s t) [ Ordering.gt ↦ true | _ ↦ false ]

abbrev pub str_ge : String → String → Bool
str_ge s t = elim (compare s t) [ Ordering.lt ↦ false | _ ↦ true ]

-- `strings.HasPrefix`
unfoldable pub has_prefix : String → String → Bool
has_prefix s [] = true
has_prefix [] (d ∷ t) = false
has_prefix (c ∷ s) (d ∷ t) = nat_eq (code c) (code d) && has_prefix s t

-- `strings.HasSuffix`
-- `strings.TrimPrefix`
abbrev drop_text : ℕ → String → String
drop_text zero s = s
drop_text (suc n) [] = []
drop_text (suc n) (c ∷ s) = drop_text n s

abbrev pub trim_prefix : String → String → String
trim_prefix s t = if has_prefix s t then drop_text (count t) s else s

-- `strings.HasSuffix`
unfoldable pub has_suffix : String → String → Bool
has_suffix [] t = [] == t
has_suffix (c ∷ s) t = (c ∷ s) == t || has_suffix s t

-- `strings.TrimSuffix`
unfoldable pub trim_suffix : String → String → String
trim_suffix [] t = []
trim_suffix (c ∷ s) t = let rest = trim_suffix s t in if (c ∷ s) == t then [] else c ∷ rest

-- `strings.Contains`
unfoldable pub contains : String → String → Bool
contains [] t = [] == t
contains (c ∷ s) t = has_prefix (c ∷ s) t || contains s t

pub trim_suffix-append : (s t : String) → has_suffix s t ≡ true → trim_suffix s t <> t ≡ s
unfolding has_suffix trim_suffix
trim_suffix-append [] t h = nil-append t ∙ sym ((eq_iff "" t).0 h)
trim_suffix-append (c ∷ s) t h = elim (Bool-cases ((c ∷ s) == t)) [
  | inl p ↦ rw p (nil-append t ∙ sym ((eq_iff (c ∷ s) t).0 p))
  | inr n ↦ rw (n, cons-append) (ap (λ r. c ∷ r) (trim_suffix-append s t (ground arith)))
]

has_suffix_self : (t : String) → has_suffix t t ≡ true
unfolding has_suffix
has_suffix_self [] = refl
has_suffix_self (d ∷ t) = rw eq_refl

trim_suffix_self : (t : String) → trim_suffix t t ≡ []
unfolding trim_suffix
trim_suffix_self [] = refl
trim_suffix_self (d ∷ t) = rw eq_refl

longer : (c : Char) (s t : String) → ((c ∷ (s <> t)) == t) ≡ false
longer c s t = elim (Bool-cases ((c ∷ (s <> t)) == t)) [
  | inl p ↦ absurd (
      omega (
        arith,
        ap count ((eq_iff (c ∷ (s <> t)) t).0 p),
        length-cons c (s <> t),
        length-append s t,
      ))
  | inr n ↦ n
]

pub has_suffix-append : (s t : String) → has_suffix (s <> t) t ≡ true
unfolding has_suffix
has_suffix-append [] t = rw nil-append (has_suffix_self t)
has_suffix-append (c ∷ s) t = rw (cons-append, longer c s t) (has_suffix-append s t)

pub trim_suffix_of_append : (s t : String) → trim_suffix (s <> t) t ≡ s
unfolding trim_suffix
trim_suffix_of_append [] t = rw nil-append (trim_suffix_self t)
trim_suffix_of_append (c ∷ s) t =
    rw (cons-append, longer c s t) (ap (λ r. c ∷ r) (trim_suffix_of_append s t))

pub eq_false : (s t : String) → s ≢ t → (s == t) ≡ false
eq_false s t h = elim (Bool-cases (s == t)) [ inl p ↦ absurd (h ((eq_iff s t).0 p)) | inr n ↦ n ]

-- `len(s)`: the bytes of the UTF-8 encoding.
abbrev char_bytes : ℕ → ℕ
char_bytes c = if ltb c 128 then 1 else if ltb c 2048 then 2 else if ltb c 65536 then 3 else 4

unfoldable pub byte_length : String → ℕ
byte_length [] = 0
byte_length (c ∷ s) = char_bytes (code c) + byte_length s

-- `%d` of a number that is not negative.
abbrev pub digit : ℕ → String
digit zero = "0"
digit (suc zero) = "1"
digit (suc (suc zero)) = "2"
digit (suc (suc (suc zero))) = "3"
digit (suc (suc (suc (suc zero)))) = "4"
digit (suc (suc (suc (suc (suc zero))))) = "5"
digit (suc (suc (suc (suc (suc (suc zero)))))) = "6"
digit (suc (suc (suc (suc (suc (suc (suc zero))))))) = "7"
digit (suc (suc (suc (suc (suc (suc (suc (suc zero)))))))) = "8"
digit _ = "9"

-- A number has at most as many digits as it counts, and one more.
unfoldable pub digits : ℕ → ℕ → String
digits zero n = digit n
digits (suc fuel) n =
    let front = digits fuel (n / 10) in if ltb n 10 then digit n else front <> digit (n % 10)

unfoldable pub show_nat : ℕ → String
unfolding digits
show_nat n = digits n n
