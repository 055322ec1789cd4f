-- ===== src/Base/Int.antt =====
-- Signed integers, as far as the program compares them. `negsuc n` is -(n + 1).
use openbotstack_core.Base.{ap, arith, true, false, ◌≡◌, nat_eq}
use Prim.Native.Nat.{ℕ, suc, ◌+◌, ◌<◌}
use mathlib.Core.Bool.{true, false, Bool}
use openbotstack_core.Base.Tests.{nat_eq, ltb}

pub data ℤ : Type 0 where
  pos : ℕ → ℤ
  negsuc : ℕ → ℤ

abbrev pub pos_part : ℤ → ℕ
pos_part (pos n) = n
pos_part (negsuc n) = 0

abbrev pub neg_part : ℤ → ℕ
neg_part (pos n) = 0
neg_part (negsuc n) = suc n

infix 50 ◌<ℤ◌
abbrev pub ◌<ℤ◌ : ℤ → ℤ → Type 0
a <ℤ b = pos_part a + neg_part b < pos_part b + neg_part a

abbrev pub ltb_ℤ : ℤ → ℤ → Bool
ltb_ℤ a b = ltb (pos_part a + neg_part b) (pos_part b + neg_part a)

abbrev pub int_eq : ℤ → ℤ → Bool
int_eq (pos m) (pos n) = nat_eq m n
int_eq (negsuc m) (negsuc n) = nat_eq m n
int_eq _ _ = false

pub int_eq_refl : (a : ℤ) → int_eq a a ≡ true
int_eq_refl (pos n) = ground arith
int_eq_refl (negsuc n) = ground arith

pub int_eq_path : (a b : ℤ) → int_eq a b ≡ true → a ≡ b
int_eq_path (pos m) (pos n) h = ap pos (ground arith)
int_eq_path (negsuc m) (negsuc n) h = ap negsuc (ground arith)
int_eq_path (pos m) (negsuc n) h = absurd (ground arith)
int_eq_path (negsuc m) (pos n) h = absurd (ground arith)
