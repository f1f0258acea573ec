-- ===== src/Base/Int.antt =====
-- C's `int`: signed integers over the native numbers, 32-bit wrap, and division towards zero.
use Prim.Native.Nat.{ℕ, suc, ◌+◌, ◌-◌, ◌*◌, ◌/◌, ◌%◌, ◌^◌, ◌≤◌, ◌<◌}
use mathlib.Core.Path.{◌≡◌, refl}
use mathlib.Core.Bool.{Bool, true, false}
use native.Mathlib.Omega.{arith}
use libevfilter.Base.Tests.{ltb, leb, ◌==◌, if◌then◌else◌}

-- `negsuc n` is -(n + 1).
pub data ℤ : Type 0 where
  pos : ℕ → ℤ
  negsuc : ℕ → ℤ

abbrev pub pos_part : ℤ → ℕ
pos_part (pos n) = n
pos_part (negsuc n) = 0

abbrev pub neg_part : ℤ → ℕ
neg_part (pos n) = 0
neg_part (negsuc n) = suc n

-- a - b, as an integer.
abbrev pub sub_ℕ : ℕ → ℕ → ℤ
sub_ℕ a b = if leb b a then pos (a - b) else negsuc (b - a - 1)

infixl 65 ◌+ℤ◌ ◌-ℤ◌
infixl 70 ◌*ℤ◌
infix 50 ◌≤ℤ◌ ◌==ℤ◌
unfoldable pub ◌+ℤ◌ : ℤ → ℤ → ℤ
a +ℤ b = sub_ℕ (pos_part a + pos_part b) (neg_part a + neg_part b)

unfoldable pub ◌-ℤ◌ : ℤ → ℤ → ℤ
a -ℤ b = sub_ℕ (pos_part a + neg_part b) (neg_part a + pos_part b)

unfoldable pub ◌*ℤ◌ : ℤ → ℤ → ℤ
a *ℤ b =
    sub_ℕ (pos_part a * pos_part b + neg_part a * neg_part b)
      (pos_part a * neg_part b + neg_part a * pos_part b)

abbrev pub ◌≤ℤ◌ : ℤ → ℤ → Type 0
a ≤ℤ b = pos_part a + neg_part b ≤ pos_part b + neg_part a

abbrev pub ltb_ℤ : ℤ → ℤ → Bool
ltb_ℤ a b = ltb (pos_part a + neg_part b) (pos_part b + neg_part a)

abbrev pub ◌==ℤ◌ : ℤ → ℤ → Bool
pos a ==ℤ pos b = a == b
negsuc a ==ℤ negsuc b = a == b
pos _ ==ℤ negsuc _ = false
negsuc _ ==ℤ pos _ = false

pub ==ℤ→eq : (a b : ℤ) → (a ==ℤ b) ≡ true → a ≡ b
==ℤ→eq (pos a) (pos b) h = ground arith
==ℤ→eq (negsuc a) (negsuc b) h = ground arith
==ℤ→eq (pos a) (negsuc b) h = ground arith
==ℤ→eq (negsuc a) (pos b) h = ground arith

pub ==ℤ_refl : (a : ℤ) → (a ==ℤ a) ≡ true
==ℤ_refl (pos a) = ground arith
==ℤ_refl (negsuc a) = ground arith

-- One lemma for each operation lets `omega` work with the operations shut, at any depth.
pub +ℤ_parts :
    (a b : ℤ)
    → pos_part (a +ℤ b) + neg_part a + neg_part b ≡ neg_part (a +ℤ b) + pos_part a + pos_part b
unfolding ◌+ℤ◌
+ℤ_parts a b = ground arith

pub -ℤ_parts :
    (a b : ℤ)
    → pos_part (a -ℤ b) + neg_part a + pos_part b ≡ neg_part (a -ℤ b) + pos_part a + neg_part b
unfolding ◌-ℤ◌
-ℤ_parts a b = ground arith

pub eq_of_parts : (a b : ℤ) → pos_part a + neg_part b ≡ pos_part b + neg_part a → a ≡ b
eq_of_parts a b h = ground arith

pub ruleset int_laws = (arith, +ℤ_parts, -ℤ_parts, eq_of_parts)

pub sub_add_cancel : (a b : ℤ) → a -ℤ b +ℤ b ≡ a
sub_add_cancel a b = omega int_laws

-- `abs` of stdlib.h, away from INT_MIN.
abbrev pub abs : ℤ → ℕ
abs (pos n) = n
abs (negsuc n) = suc n

-- `a / b` and `a % b` of C: the quotient is cut towards zero, the rest has the sign of `a`.
unfoldable pub div_trunc : ℤ → ℤ → ℤ
div_trunc (pos a) (pos b) = pos (a / b)
div_trunc (pos a) (negsuc b) = sub_ℕ 0 (a / suc b)
div_trunc (negsuc a) (pos b) = sub_ℕ 0 (suc a / b)
div_trunc (negsuc a) (negsuc b) = pos (suc a / suc b)

unfoldable pub rem_trunc : ℤ → ℤ → ℤ
rem_trunc (pos a) b = pos (a % abs b)
rem_trunc (negsuc a) b = sub_ℕ 0 (suc a % abs b)

-- INT_MAX, and the values of a 32-bit `int`.
abbrev pub int_max : ℕ
int_max = 0x7fff_ffff

abbrev pub InInt : ℤ → Type 0
InInt (pos n) = n ≤ int_max
InInt (negsuc n) = n ≤ int_max

-- What a 32-bit word stands for, and the value that an `int` keeps of an exact result.
abbrev pub signed32 : ℕ → ℤ
signed32 w = if ltb w (2 ^ 31) then pos w else negsuc (2 ^ 32 - w - 1)

unfoldable pub to_int : ℤ → ℤ
to_int (pos n) = signed32 (n % 2 ^ 32)
to_int (negsuc n) = signed32 (2 ^ 32 - 1 - n % 2 ^ 32)

pub to_int_fits : (z : ℤ) → InInt z → to_int z ≡ z
unfolding to_int
to_int_fits (pos n) h = ground arith
to_int_fits (negsuc n) h = ground arith

pub to_int-InInt : (z : ℤ) → InInt (to_int z)
unfolding to_int
to_int-InInt (pos n) = ground arith
to_int-InInt (negsuc n) = ground arith

-- The 16 bits that a `__u16` field keeps of an `int`.
unfoldable pub to_u16 : ℤ → ℕ
to_u16 (pos n) = n % 2 ^ 16
to_u16 (negsuc n) = 2 ^ 16 - 1 - n % 2 ^ 16

pub to_u16_fits : (n : ℕ) → n < 2 ^ 16 → to_u16 (pos n) ≡ n
unfolding to_u16
to_u16_fits n h = omega arith

-- Division by a positive number: the quotient and the rest make up the dividend.
pub div_trunc-rem_trunc :
    (a : ℤ) (b : ℕ) → div_trunc a (pos (suc b)) *ℤ pos (suc b) +ℤ rem_trunc a (pos (suc b)) ≡ a
unfolding div_trunc rem_trunc ◌+ℤ◌ ◌*ℤ◌
div_trunc-rem_trunc (pos a) b = grind arith
div_trunc-rem_trunc (negsuc a) b = grind arith

pub mul_one : (a : ℤ) → a *ℤ pos 1 ≡ a
unfolding ◌*ℤ◌
mul_one a = ground arith

-- An equation of integers, in the form that `omega` reads.
pub parts_of_eq : (a b : ℤ) → a ≡ b → pos_part a + neg_part b ≡ pos_part b + neg_part a
parts_of_eq a b h = rw h (omega arith)

pub ==ℤ_ne : (a b : ℤ) → (a ≡ b → ⊥) → (a ==ℤ b) ≡ false
==ℤ_ne (pos a) (pos b) h = ground arith
==ℤ_ne (negsuc a) (negsuc b) h = ground arith
==ℤ_ne (pos a) (negsuc b) h = refl
==ℤ_ne (negsuc a) (pos b) h = refl
