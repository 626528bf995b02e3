-- ===== src/Common/Text/Digits.antt =====
-- Numbers that `std::to_string` writes and `std::stoull` reads.
use simple_ntpd.Common.{
  ℕ, zero, suc, ◌+◌, ◌-◌, ◌*◌, ◌/◌, ◌%◌, ◌^◌, ◌<◌, ◌≡◌, refl, ap, ◌∙◌, arith, true, false, some, [],
  ◌∷◌, ◌++◌, All, append-All, ltb, ◌==◌, if◌then◌else◌, Bool-cases, inl, inr, length, if-true,
  length-append,
}
use simple_ntpd.Common.Text.{
  Bytes, to_string, digits_of, is_digit, is_space, skip_space, read_digits, read_number, stoull,
}
use simple_ntpd.Common.Text.Laws.{Avoids}
use native.Mathlib.Nat.{pow-succ'}

-- The number that digits stand for.
abbrev pub value_of : ℕ → Bytes → ℕ
value_of acc [] = acc
value_of acc (c ∷ cs) = value_of (acc * 10 + (c - b'0')) cs

value_of-append :
    (acc c : ℕ) (s : Bytes) → value_of acc (s ++ c ∷ []) ≡ value_of acc s * 10 + (c - b'0')
value_of-append acc c [] = refl
value_of-append acc c (d ∷ s) = value_of-append (acc * 10 + (d - b'0')) c s

shorter : (n fuel : ℕ) → n < 10 ^ suc fuel → n / 10 < 10 ^ fuel
shorter n fuel h = omega (arith, h, pow-succ' 10 fuel)

value_of-digits_of : (fuel n : ℕ) → n < 10 ^ fuel → value_of 0 (digits_of fuel n) ≡ n
unfolding digits_of
value_of-digits_of zero n h = omega (arith, h)
value_of-digits_of (suc fuel) n h = elim (Bool-cases (ltb n 10)) [
  | inl one ↦ rw one (ground (arith, one))
  | inr more ↦ rw more (
      value_of-append 0 (b'0' + n % 10) (digits_of fuel (n / 10))
      ∙ omega (arith, value_of-digits_of fuel (n / 10) (shorter n fuel h)))
]

-- Different numbers have different texts.
pub value_of-to_string : (n : ℕ) → n < 2 ^ 64 → value_of 0 (to_string n) ≡ n
unfolding to_string
value_of-to_string n h = value_of-digits_of 20 n (omega (arith, h))

AreDigits : Bytes → Type 0
AreDigits = All (λ c. is_digit c ≡ true)

digits_of-AreDigits : (fuel n : ℕ) → AreDigits (digits_of fuel n)
unfolding digits_of AreDigits
digits_of-AreDigits zero n = tt
digits_of-AreDigits (suc fuel) n = elim (Bool-cases (ltb n 10)) [
  | inl one ↦ rw one (last, tt)
  | inr more ↦ rw more (
      append-All (λ c. is_digit c ≡ true) (digits_of fuel (n / 10)) ((b'0' + n % 10) ∷ [])
        (digits_of-AreDigits fuel (n / 10)) (last, tt))
]
  where
    last : is_digit (b'0' + n % 10) ≡ true
    last = ground arith

digit-Avoids : (d c : ℕ) → is_digit d ≡ false → is_digit c ≡ true → (c == d) ≡ false
digit-Avoids d c h k = ground arith

AreDigits-Avoids : (d : ℕ) (s : Bytes) → is_digit d ≡ false → AreDigits s → Avoids d s
unfolding AreDigits
AreDigits-Avoids d [] h k = tt
AreDigits-Avoids d (c ∷ s) h (here, there) = (digit-Avoids d c h here, AreDigits-Avoids d s h there)

-- No byte but digits is in the text of a number.
pub to_string-Avoids : (d n : ℕ) → is_digit d ≡ false → Avoids d (to_string n)
unfolding to_string
to_string-Avoids d n h = AreDigits-Avoids d (digits_of 20 n) h (digits_of-AreDigits 20 n)

-- No digit stands at the front.
abbrev pub StopsDigits : Bytes → Type 0
StopsDigits [] = Unit
StopsDigits (c ∷ s) = is_digit c ≡ false

read_digits-append :
    (acc k : ℕ) (s rest : Bytes)
    → AreDigits s
    → StopsDigits rest
    → read_digits acc k (s ++ rest) ≡ (value_of acc s, k + length s)
unfolding read_digits AreDigits
read_digits-append acc k [] [] h stops = ap (λ j. (acc, j)) (omega arith)
read_digits-append acc k [] (c ∷ rest) h stops = rw stops (ap (λ j. (acc, j)) (omega arith))
read_digits-append acc k (c ∷ s) rest (here, there) stops = rw here (
    read_digits-append (acc * 10 + (c - b'0')) (k + 1) s rest there stops
    ∙ ap (λ j. (value_of (acc * 10 + (c - b'0')) s, j)) (omega arith))

not_space : (c : ℕ) → is_digit c ≡ true → is_space c ≡ false
not_space c h = ground arith

not_sign : (c : ℕ) → is_digit c ≡ true → ((c == b'-') ≡ false) × ((c == b'+') ≡ false)
not_sign c h = (ground arith, ground arith)

add_suc : (n : ℕ) → 0 + suc n ≡ suc n
add_suc n = omega arith

read_number-digits :
    (c : ℕ) (s rest : Bytes)
    → AreDigits (c ∷ s)
    → StopsDigits rest
    → read_number (c ∷ s ++ rest) ≡ some (false, value_of 0 (c ∷ s))
unfolding read_number skip_space AreDigits
read_number-digits c s rest (here, there) stops =
    let (no_minus, no_plus) = not_sign c here in
    let read = read_digits-append 0 0 (c ∷ s) rest (here, there) stops in
    rw (not_space c here, no_minus, no_plus, read, add_suc (length s)) refl

stoull-digits :
    (s rest : Bytes)
    → AreDigits s
    → 0 < length s
    → StopsDigits rest
    → value_of 0 s < 2 ^ 64
    → stoull (s ++ rest) ≡ some (value_of 0 s)
unfolding stoull
stoull-digits [] rest h long stops small = absurd (omega arith)
stoull-digits (c ∷ s) rest h long stops small =
    rw (stoull, read_number-digits c s rest h stops)
      (if-true (ltb (value_of 0 (c ∷ s)) (2 ^ 64)) _ _ (ground arith))

digits_of-nonempty : (fuel n : ℕ) → 0 < length (digits_of (suc fuel) n)
unfolding digits_of
digits_of-nonempty fuel n =
    omega (
      arith,
      length-append (if ltb n 10 then [] else digits_of fuel (n / 10)) ((b'0' + n % 10) ∷ []),
    )

-- A 64-bit number is read back, whatever follows, if that begins with no digit.
pub stoull-to_string :
    (n : ℕ) (rest : Bytes) → n < 2 ^ 64 → StopsDigits rest → stoull (to_string n ++ rest) ≡ some n
unfolding to_string
stoull-to_string n rest small stops =
    let same : value_of 0 (digits_of 20 n) ≡ n = value_of-to_string n small in
    stoull-digits (digits_of 20 n) rest (digits_of-AreDigits 20 n) (digits_of-nonempty 19 n) stops
      (omega (arith, same))
    ∙ ap some same
