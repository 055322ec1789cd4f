-- ===== src/Template/Numbers/RoundTrip.antt =====
-- engine.go: tryParseInt on decimal texts.
use Prim.Native.Nat.{ℕ, zero, suc, ◌+◌, ◌*◌, ◌/◌, ◌%◌, ◌^◌, ◌≤◌, ◌<◌}
use Prim.Native.String.{[], ◌∷◌}
use text.Mathlib.TextLemmas.{nil-append, cons-append}
use openbotstack_core.Base.{
  true≢false, String, ◌<>◌, true, false, ◌&&◌, some, ◌≡◌, refl, sym, ◌∙◌, show_nat, digits, digit,
  arith, ltb, Bool-cases, inl, inr,
}
use openbotstack_core.Template.Numbers.{
  all_digits, scan, negate, int_syntax, starts_minus, try_parse_int,
}

scan-append : (s t : String) (n : ℕ) → scan (s <> t) n ≡ scan t (scan s n)
unfolding scan
scan-append [] t n = rw nil-append refl
scan-append (c ∷ s) t n = rw cons-append (scan-append s t _)

all_digits-append : (s t : String) → all_digits (s <> t) ≡ (all_digits s && all_digits t)
unfolding all_digits
all_digits-append [] t = rw nil-append refl
all_digits-append (c ∷ s) t = rw cons-append (ground (arith, all_digits-append s t))

all_digits-digit : (d : ℕ) → all_digits (digit d) ≡ true
unfolding all_digits
all_digits-digit zero = refl
all_digits-digit (suc zero) = refl
all_digits-digit (suc (suc zero)) = refl
all_digits-digit (suc (suc (suc zero))) = refl
all_digits-digit (suc (suc (suc (suc zero)))) = refl
all_digits-digit (suc (suc (suc (suc (suc zero))))) = refl
all_digits-digit (suc (suc (suc (suc (suc (suc zero)))))) = refl
all_digits-digit (suc (suc (suc (suc (suc (suc (suc zero))))))) = refl
all_digits-digit (suc (suc (suc (suc (suc (suc (suc (suc zero)))))))) = refl
all_digits-digit (suc (suc (suc (suc (suc (suc (suc (suc (suc d))))))))) = refl

scan-digit : (d n : ℕ) → d < 10 → scan (digit d) n ≡ (n * 10 + d) % 2 ^ 64
unfolding scan
scan-digit zero n h = refl
scan-digit (suc zero) n h = refl
scan-digit (suc (suc zero)) n h = refl
scan-digit (suc (suc (suc zero))) n h = refl
scan-digit (suc (suc (suc (suc zero)))) n h = refl
scan-digit (suc (suc (suc (suc (suc zero))))) n h = refl
scan-digit (suc (suc (suc (suc (suc (suc zero)))))) n h = refl
scan-digit (suc (suc (suc (suc (suc (suc (suc zero))))))) n h = refl
scan-digit (suc (suc (suc (suc (suc (suc (suc (suc zero)))))))) n h = refl
scan-digit (suc (suc (suc (suc (suc (suc (suc (suc (suc zero))))))))) n h = refl
scan-digit (suc (suc (suc (suc (suc (suc (suc (suc (suc (suc d)))))))))) n h = absurd (omega arith)

all_digits-digits : (fuel n : ℕ) → all_digits (digits fuel n) ≡ true
unfolding digits
all_digits-digits zero n = all_digits-digit n
all_digits-digits (suc fuel) n = elim (Bool-cases (ltb n 10)) [
  | inl h ↦ rw h (all_digits-digit n)
  | inr h ↦ rw (h, all_digits-append, all_digits-digits fuel (n / 10)) (all_digits-digit (n % 10))
]

-- The decimal text of a number is read as the number, wrapped.
scan-digits : (fuel n : ℕ) → n ≤ fuel → scan (digits fuel n) 0 ≡ n % 2 ^ 64
unfolding digits
scan-digits zero n h = scan-digit n 0 (omega arith) ∙ omega arith
scan-digits (suc fuel) n h = elim (Bool-cases (ltb n 10)) [
  | inl k ↦ rw k (scan-digit n 0 (ground arith) ∙ omega arith)
  | inr k ↦
      rw (k, scan-append, scan-digits fuel (n / 10) (ground arith))
        (scan-digit (n % 10) (n / 10 % 2 ^ 64) (omega arith) ∙ omega arith)
]

not_minus : (s : String) → all_digits s ≡ true → starts_minus s ≡ false
unfolding all_digits
not_minus [] h = refl
not_minus (c ∷ s) h = ground arith

int_syntax-digit : (d : ℕ) → int_syntax (digit d) ≡ true
unfolding all_digits
int_syntax-digit zero = refl
int_syntax-digit (suc zero) = refl
int_syntax-digit (suc (suc zero)) = refl
int_syntax-digit (suc (suc (suc zero))) = refl
int_syntax-digit (suc (suc (suc (suc zero)))) = refl
int_syntax-digit (suc (suc (suc (suc (suc zero))))) = refl
int_syntax-digit (suc (suc (suc (suc (suc (suc zero)))))) = refl
int_syntax-digit (suc (suc (suc (suc (suc (suc (suc zero))))))) = refl
int_syntax-digit (suc (suc (suc (suc (suc (suc (suc (suc zero)))))))) = refl
int_syntax-digit (suc (suc (suc (suc (suc (suc (suc (suc (suc d))))))))) = refl

int_syntax-append :
    (s t : String) → int_syntax s ≡ true → all_digits t ≡ true → int_syntax (s <> t) ≡ true
int_syntax-append [] t h k = absurd (true≢false (sym h))
int_syntax-append (c ∷ s) t h k = rw (cons-append, all_digits-append, k) (ground arith)

int_syntax-digits : (fuel n : ℕ) → int_syntax (digits fuel n) ≡ true
unfolding digits
int_syntax-digits zero n = int_syntax-digit n
int_syntax-digits (suc fuel) n = elim (Bool-cases (ltb n 10)) [
  | inl h ↦ rw h (int_syntax-digit n)
  | inr h ↦ rw h (
      int_syntax-append (digits fuel (n / 10)) (digit (n % 10)) (int_syntax-digits fuel (n / 10))
        (all_digits-digit (n % 10)))
]

-- tryParseInt reads the decimal text of a number as the number modulo 2^64, and the text with a minus
-- in front as its negative modulo 2^64: no number is out of range for it.
pub try_parse_int-show_nat :
    (n : ℕ)
    → (try_parse_int (show_nat n) ≡ some (n % 2 ^ 64))
      × (try_parse_int ("-" <> show_nat n) ≡ some (negate (n % 2 ^ 64)))
unfolding try_parse_int show_nat scan
try_parse_int-show_nat n = (
  rw
      (
        int_syntax-digits n n,
        not_minus (digits n n) (all_digits-digits n n),
        scan-digits n n (omega arith),
      )
      refl,
  rw (cons-append, nil-append, all_digits-digits n n, scan-digits n n (omega arith)) refl,
)
