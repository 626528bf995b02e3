-- ===== src/Common/Int.antt =====
-- Signed integers over the native numbers, under the library's names (its ℤ stands on the unary ℕ),
-- C++ division on them, and the conversions between them and machine words.
-- Sums and orders go through the two parts of an integer, which are numbers that `omega` reads.
use simple_ntpd.Common.{
  ℕ, suc, ◌+◌, ◌-◌, ◌*◌, ◌/◌, ◌%◌, ◌^◌, ◌≤◌, ◌<◌, ◌≡◌, ◌⊎◌, Bool, true, arith, ltb, leb, ◌==◌,
  if◌then◌else◌,
}
use native.Mathlib.Nat.{zero-div}

-- `negsuc n` is -(n + 1).
pub data ℤ : Type 0 where
  pos : ℕ → ℤ
  negsuc : ℕ → ℤ

abbrev pub pos_part : ℤ → ℕ
pos_part (pos n) = n
pos_part (negsuc n) = 0

abbrev pub neg_part : ℤ → ℕ
neg_part (pos n) = 0
neg_part (negsuc n) = suc n

-- a - b, as an integer.
abbrev pub sub_ℕ : ℕ → ℕ → ℤ
sub_ℕ a b = if leb b a then pos (a - b) else negsuc (b - a - 1)

infixl 65 ◌+ℤ◌ ◌-ℤ◌
infix 50 ◌≤ℤ◌
unfoldable pub ◌+ℤ◌ : ℤ → ℤ → ℤ
a +ℤ b = sub_ℕ (pos_part a + pos_part b) (neg_part a + neg_part b)

unfoldable pub ◌-ℤ◌ : ℤ → ℤ → ℤ
a -ℤ b = sub_ℕ (pos_part a + neg_part b) (neg_part a + pos_part b)

abbrev pub ◌≤ℤ◌ : ℤ → ℤ → Type 0
a ≤ℤ b = pos_part a + neg_part b ≤ pos_part b + neg_part a

abbrev pub ltb_ℤ : ℤ → ℤ → Bool
ltb_ℤ a b = ltb (pos_part a + neg_part b) (pos_part b + neg_part a)

abbrev pub eq_ℤ : ℤ → ℤ → Bool
eq_ℤ a b = pos_part a + neg_part b == pos_part b + neg_part a

-- `a / n` of signed integers for n > 0: towards zero.
unfoldable pub div_trunc : ℤ → ℕ → ℤ
div_trunc (pos a) n = pos (a / n)
div_trunc (negsuc a) n = sub_ℕ 0 (suc a / n)

-- `a * n`
unfoldable pub scale : ℤ → ℕ → ℤ
scale a n = sub_ℕ (pos_part a * n) (neg_part a * n)

-- `static_cast<uintw_t>(a)`: the residue of `a` by `2 ^ w`, given as `m`.
unfoldable pub to_unsigned : ℕ → ℤ → ℕ
to_unsigned m (pos a) = a % m
to_unsigned m (negsuc a) = m - 1 - a % m

-- `static_cast<intw_t>(u)` for a word below `m = 2 ^ w`: two's complement.
unfoldable pub to_signed : ℕ → ℕ → ℤ
to_signed m u = if ltb u (m / 2) then pos u else negsuc (m - 1 - u)

-- The integer is in the range of `int64_t`.
abbrev pub IsI64 : ℤ → Type 0
IsI64 a = (pos_part a < 2 ^ 63) × (neg_part a ≤ 2 ^ 63)

abbrev pub IsI8 : ℤ → Type 0
IsI8 a = (pos_part a < 128) × (neg_part a ≤ 128)

pub +ℤ_parts :
    (a b : ℤ)
    → pos_part (a +ℤ b) + neg_part a + neg_part b ≡ neg_part (a +ℤ b) + pos_part a + pos_part b
unfolding ◌+ℤ◌
+ℤ_parts a b = ground arith

pub -ℤ_parts :
    (a b : ℤ)
    → pos_part (a -ℤ b) + neg_part a + pos_part b ≡ neg_part (a -ℤ b) + pos_part a + neg_part b
unfolding ◌-ℤ◌
-ℤ_parts a b = ground arith

-- One part of an integer is 0.
pub one_part : (a : ℤ) → (pos_part a ≡ 0) ⊎ (neg_part a ≡ 0)
one_part a = ground arith

pub eq_of_parts : (a b : ℤ) → pos_part a + neg_part b ≡ pos_part b + neg_part a → a ≡ b
eq_of_parts a b h = ground arith

pub ruleset int_laws = (arith, +ℤ_parts, -ℤ_parts, one_part, eq_of_parts)

-- A byte read as `int8_t` and cast back is the same byte, and the other way round.
pub to_unsigned-to_signed_byte : (b : ℕ) → b < 256 → to_unsigned 256 (to_signed 256 b) ≡ b
unfolding to_unsigned to_signed
to_unsigned-to_signed_byte b h = ground arith

pub to_signed-to_unsigned_byte : (a : ℤ) → IsI8 a → to_signed 256 (to_unsigned 256 a) ≡ a
unfolding to_unsigned to_signed
to_signed-to_unsigned_byte a h = ground arith

pub div_trunc_parts :
    (a : ℤ) (n : ℕ)
    → (pos_part (div_trunc a n) ≡ pos_part a / n) × (neg_part (div_trunc a n) ≡ neg_part a / n)
unfolding div_trunc
div_trunc_parts (pos a) n = ground (arith, zero-div n)
div_trunc_parts (negsuc a) n = ground (arith, zero-div n)

pub scale_parts :
    (a : ℤ) (n : ℕ) → pos_part (scale a n) + neg_part a * n ≡ neg_part (scale a n) + pos_part a * n
unfolding scale
scale_parts a n = ground arith

pub to_signed-IsI8 : (b : ℕ) → b < 256 → IsI8 (to_signed 256 b)
unfolding to_signed
to_signed-IsI8 b h = ground arith

pub eq_ℤ-eq : (a b : ℤ) → eq_ℤ a b ≡ true → a ≡ b
eq_ℤ-eq a b h = ground arith
