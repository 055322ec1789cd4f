-- ===== src/Base/Order.antt =====
-- The order of texts is total: comparing the other way round flips the answer.
use Prim.Native.Nat.{ℕ, zero, suc, Ordering, compare as compare_ℕ}
use Prim.Native.Nat.compare as compare_nat
use Prim.Native.Char.{code}
use Prim.Native.String.compare as compare_text
use Prim.Native.String.{String, [], ◌∷◌, compare}
use Prim.Native.String
use mathlib.Core.Path.{◌≡◌, refl}
use mathlib.Core.Bool.{false, true, not}
use native.Mathlib.Omega.{arith}
use openbotstack_core.Base.Text.{str_gt, str_ge, str_lt}

abbrev flip : Ordering → Ordering
flip Ordering.lt = Ordering.gt
flip Ordering.eq = Ordering.eq
flip Ordering.gt = Ordering.lt

flip-then : (a b : Ordering) → flip (String.then a b) ≡ String.then (flip a) (flip b)
flip-then Ordering.lt b = refl
flip-then Ordering.eq b = refl
flip-then Ordering.gt b = refl

compare_ℕ-flip : (m n : ℕ) → compare_ℕ n m ≡ flip (compare_ℕ m n)
compare_ℕ-flip zero zero = refl
compare_ℕ-flip zero (suc n) = rw (compare_nat.zero-suc n, compare_nat.suc-zero n)
compare_ℕ-flip (suc m) zero = rw (compare_nat.zero-suc m, compare_nat.suc-zero m)
compare_ℕ-flip (suc m) (suc n) =
    rw (compare_nat.suc-suc m n, compare_nat.suc-suc n m) (compare_ℕ-flip m n)

compare-flip : (s t : String) → compare t s ≡ flip (compare s t)
compare-flip [] [] = refl
compare-flip [] (d ∷ t) = rw (compare_text.nil-cons d t, compare_text.cons-nil d t)
compare-flip (c ∷ s) [] = rw (compare_text.nil-cons c s, compare_text.cons-nil c s)
compare-flip (c ∷ s) (d ∷ t) =
    rw
      (
        compare_text.cons-cons c d s t,
        compare_text.cons-cons d c t s,
        compare_ℕ-flip (code c) (code d),
        compare-flip s t,
      )
      (rw flip-then)

pub str_ge-eq-not : (s t : String) → str_ge s t ≡ not (str_lt s t)
str_ge-eq-not s t = ground arith

pub str_gt-flip : (s t : String) → str_gt t s ≡ str_lt s t
str_gt-flip s t = ground (arith, compare-flip s t)

-- `str_lt` is asymmetric, and its negation is transitive: what sorting by it asks for.
pub str_lt_asym : (s t : String) → str_lt s t ≡ true → str_lt t s ≡ false
str_lt_asym s t h = ground (arith, compare-flip s t)

pub str_lt_trans : (s t u : String) → str_lt s t ≡ false → str_lt t u ≡ false → str_lt s u ≡ false
str_lt_trans s [] [] h k = h
str_lt_trans [] [] (d ∷ u) h k = k
str_lt_trans (c ∷ s) [] (d ∷ u) h k = ground (arith, compare_text.nil-cons d u)
str_lt_trans [] (d ∷ t) u h k = ground (arith, compare_text.nil-cons d t)
str_lt_trans (c ∷ s) (d ∷ t) [] h k = ground (arith, compare_text.cons-nil c s)
str_lt_trans (c ∷ s) (d ∷ t) (e ∷ u) h k = ground (
  arith,
  compare_text.cons-cons c d s t,
  compare_text.cons-cons d e t u,
  compare_text.cons-cons c e s u,
  str_lt_trans s t u,
)
