-- ===== src/Common/Int.antt =====
-- The values of C's `int` that the programs compute: indices, positions and the -1 of a failed
-- search. Where one may leave the bounds of an `int`, the code's cast is written out.
use operating_systems_course.Common.{
  ℕ, suc, ◌-◌, ◌%◌, ◌<◌, ltb, ◌≡◌, Bool, true, false, arith, leb, ◌==◌, if◌then◌else◌,
}

-- `negsuc n` is -(n + 1).
pub data ℤ : Type 0 where
  pos : ℕ → ℤ
  negsuc : ℕ → ℤ

abbrev pub pos_part : ℤ → ℕ
pos_part (pos n) = n
pos_part (negsuc n) = 0

abbrev pub neg_part : ℤ → ℕ
neg_part (pos n) = 0
neg_part (negsuc n) = suc n

-- a - b, as an integer.
abbrev pub sub_ℕ : ℕ → ℕ → ℤ
sub_ℕ a b = if leb b a then pos (a - b) else negsuc (b - a - 1)

abbrev pub minus_one : ℤ
minus_one = negsuc 0

abbrev pub eq_ℤ : ℤ → ℤ → Bool
eq_ℤ (pos a) (pos b) = a == b
eq_ℤ (negsuc a) (negsuc b) = a == b
eq_ℤ (pos _) (negsuc _) = false
eq_ℤ (negsuc _) (pos _) = false

-- `(int)` of a `long`, which keeps the lowest 32 bits.
abbrev pub signed_32 : ℕ → ℤ
signed_32 m = if ltb m 2147483648 then pos m else negsuc (4294967295 - m)

unfoldable pub int_of : ℤ → ℤ
int_of (pos n) = signed_32 (n % 4294967296)
int_of (negsuc n) = signed_32 (4294967295 - n % 4294967296)

pub int_of_small : (n : ℕ) → n < 2147483648 → int_of (pos n) ≡ pos n
unfolding int_of
int_of_small n h = ground arith

pub eq_ℤ_refl : (a : ℤ) → eq_ℤ a a ≡ true
eq_ℤ_refl a = ground arith

pub eq_ℤ→eq : (a b : ℤ) → eq_ℤ a b ≡ true → a ≡ b
eq_ℤ→eq a b h = ground arith
