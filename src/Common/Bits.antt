-- ===== src/Common/Bits.antt =====
-- Laws of `bit_and` and `bit_or` for masks and disjoint fields of any width, from the recursion
-- on binary digits that the native operations stand for.
use Prim.Native.Nat.{
  ℕ, zero, suc, ◌+◌, ◌-◌, ◌*◌, ◌/◌, ◌%◌, ◌^◌, ◌≤◌, ◌<◌, min, max, bit_and, bit_or, digits,
  bit_and-bitwise, bit_or-bitwise,
}
use mathlib.Core.Path.{◌≡◌, refl, ap, ◌∙◌}
use native.Mathlib.Omega.{arith}
use native.Mathlib.Nat.{
  pow-suc, one-le-pow, mod-lt, mod-eq_of_lt, div-add-mod', mul-add-mod_self_right,
  div-div-eq-div-mul,
}

-- Any two counts that cover the first number give the same digits.
module _ (ended : ℕ → ℕ) (digit : ℕ → ℕ → ℕ) where
  enough_digits :
      (j k a b : ℕ) → a ≤ j → a ≤ k → digits ended digit j a b ≡ digits ended digit k a b
  enough_digits (suc j) (suc k) (suc a) b p q =
      let below : suc a / 2 ≤ j = omega arith in
      rw (enough_digits j k (suc a / 2) (b / 2) below (omega arith))
  enough_digits (suc j) (suc k) zero b p q = refl
  enough_digits (suc j) zero zero b p q = refl
  enough_digits (suc j) zero (suc a) b p q = absurd (omega arith)
  enough_digits zero (suc k) zero b p q = refl
  enough_digits zero (suc k) (suc a) b p q = absurd (omega arith)
  enough_digits zero zero a b p q = refl

pub bit_and_digit : (a b : ℕ) → bit_and a b ≡ bit_and (a / 2) (b / 2) * 2 + min (a % 2) (b % 2)
bit_and_digit zero b = omega (arith, bit_and-bitwise 0 b, bit_and-bitwise 0 (b / 2))
bit_and_digit (suc a) b = omega (
  arith,
  bit_and-bitwise (suc a) b,
  bit_and-bitwise (suc a / 2) (b / 2),
  enough_digits (λ y. 0) min a (suc a / 2) (suc a / 2) (b / 2) (omega arith) (omega arith),
)

pub bit_or_digit : (a b : ℕ) → bit_or a b ≡ bit_or (a / 2) (b / 2) * 2 + max (a % 2) (b % 2)
bit_or_digit zero b = omega (arith, bit_or-bitwise 0 b, bit_or-bitwise 0 (b / 2))
bit_or_digit (suc a) b = omega (
  arith,
  bit_or-bitwise (suc a) b,
  bit_or-bitwise (suc a / 2) (b / 2),
  enough_digits (λ y. y) max a (suc a / 2) (suc a / 2) (b / 2) (omega arith) (omega arith),
)

bit_and-zero_below : (n a : ℕ) → a < n → bit_and a 0 ≡ 0
bit_and-zero_below zero a h = absurd (omega arith)
bit_and-zero_below (suc n) zero h = refl
bit_and-zero_below (suc n) (suc a) h =
    omega (arith, bit_and_digit (suc a) 0, bit_and-zero_below n (suc a / 2) (omega arith))

bit_or-zero_below : (n a : ℕ) → a < n → bit_or a 0 ≡ a
bit_or-zero_below zero a h = absurd (omega arith)
bit_or-zero_below (suc n) zero h = refl
bit_or-zero_below (suc n) (suc a) h =
    omega (arith, bit_or_digit (suc a) 0, bit_or-zero_below n (suc a / 2) (omega arith))

shift_once : (a k : ℕ) → a * 2 ^ suc k ≡ a * 2 ^ k * 2
shift_once a k = omega (arith, ap (λ (t : ℕ). a * t) (pow-suc 2 k))

-- An or with a number that fits below the shift is a sum.
pub bit_or_disjoint : (k a b : ℕ) → b < 2 ^ k → bit_or (a * 2 ^ k) b ≡ a * 2 ^ k + b
bit_or_disjoint zero a b h = ground (arith, bit_or-zero_below (suc a) a)
bit_or_disjoint (suc k) a b h = ground (
  arith,
  shift_once a k,
  pow-suc 2 k,
  bit_or_digit (a * 2 ^ suc k) b,
  bit_or_disjoint k a (b / 2) (omega (arith, pow-suc 2 k)),
)

-- The remainder by an even number, with the lowest digit split off.
mod_double : (a p : ℕ) → 0 < p → a % (p * 2) ≡ a / 2 % p * 2 + a % 2
mod_double a p pos =
    let rest : ℕ = a / 2 % p * 2 + a % 2 in
    let split : a ≡ a / 2 / p * (p * 2) + rest = omega (arith, div-add-mod' (a / 2) p) in
    let small : rest < p * 2 = omega (arith, mod-lt (a / 2) pos) in
    ap (λ (t : ℕ). t % (p * 2)) split
    ∙ mul-add-mod_self_right (a / 2 / p) (p * 2) rest
    ∙ mod-eq_of_lt small

-- A mask of `j` ones, `k` places up, keeps those places of the number.
low_ones : (j a : ℕ) → bit_and a (2 ^ j - 1) ≡ a % 2 ^ j
low_ones zero a = ground (arith, bit_and-zero_below (suc a) a)
low_ones (suc j) a = omega (
  arith,
  bit_and_digit a (2 ^ suc j - 1),
  pow-suc 2 j,
  one-le-pow j 2,
  ap (λ (t : ℕ). bit_and (a / 2) t) halved,
  ap (λ (t : ℕ). a % t) (pow-suc 2 j),
  mod_double a (2 ^ j) (one-le-pow j 2 (omega arith)),
  low_ones j (a / 2),
)
  where
    halved : (2 ^ suc j - 1) / 2 ≡ 2 ^ j - 1
    halved = omega (arith, pow-suc 2 j, one-le-pow j 2)

pub bit_and_mask : (k j a : ℕ) → bit_and a ((2 ^ j - 1) * 2 ^ k) ≡ a / 2 ^ k % 2 ^ j * 2 ^ k
bit_and_mask zero j a = ground (arith, low_ones j a)
bit_and_mask (suc k) j a = omega (
  arith,
  bit_and_digit a ((2 ^ j - 1) * 2 ^ suc k),
  shift_once (2 ^ j - 1) k,
  ap (λ (t : ℕ). bit_and (a / 2) t) halved,
  shift_once (a / 2 ^ suc k % 2 ^ j) k,
  ap (λ (t : ℕ). t % 2 ^ j * 2 ^ k) shifted,
  bit_and_mask k j (a / 2),
)
  where
    halved : (2 ^ j - 1) * 2 ^ suc k / 2 ≡ (2 ^ j - 1) * 2 ^ k
    halved = omega (arith, shift_once (2 ^ j - 1) k)

    shifted : a / 2 / 2 ^ k ≡ a / 2 ^ suc k
    shifted = div-div-eq-div-mul a 2 (2 ^ k) ∙ ap (λ (t : ℕ). a / t) (omega (arith, pow-suc 2 k))
