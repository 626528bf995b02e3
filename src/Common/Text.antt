-- ===== src/Common/Text.antt =====
-- `std::string` as the list of its bytes, and what the program uses of <string>, <cctype> and
-- the conversions between text and numbers.
pub mod Laws
pub mod Lines
pub mod Digits
use Prim.Native.Char.{code}
use Prim.Native.String.{String}
use simple_ntpd.Common.{
  ℕ, zero, suc, ◌+◌, ◌-◌, ◌*◌, ◌/◌, ◌%◌, ◌^◌, ◌≡◌, ◌↔◌, Bool, true, false, ◌&&◌, ◌||◌, Option, none,
  some, List, [], ◌∷◌, ◌++◌, arith, ltb, leb, ◌==◌, if◌then◌else◌, is_empty, map,
}
use simple_ntpd.Common.Int.{ℤ, pos, negsuc}

abbrev pub Bytes : Type 0
Bytes = List ℕ

-- The bytes of an ASCII literal.
abbrev pub codes : String → Bytes
codes String.[] = []
codes (String.◌∷◌ c s) = code c ∷ codes s

-- `operator==` on strings
unfoldable pub equal : Bytes → Bytes → Bool
equal [] [] = true
equal (x ∷ xs) (y ∷ ys) = x == y && equal xs ys
equal _ _ = false

-- Two texts with the same bytes are the same text.
pub equal_iff : (s t : Bytes) → (equal s t ≡ true) ↔ (s ≡ t)
unfolding equal
equal_iff [] [] = ground arith
equal_iff [] (d ∷ t) = ground arith
equal_iff (c ∷ s) [] = ground arith
equal_iff (c ∷ s) (d ∷ t) = ground (arith, equal_iff s t)

-- `s.find(c)`; `none` is `npos`
unfoldable pub find : ℕ → Bytes → Option ℕ
find c [] = none
find c (x ∷ xs) = if x == c then some 0 else after (find c xs)
  where
    after : Option ℕ → Option ℕ
    after none = none
    after (some i) = some (i + 1)

-- `::tolower` in the C locale
unfoldable pub to_lower : ℕ → ℕ
to_lower c = if leb b'A' c && leb c b'Z' then c + 32 else c

abbrev pub is_digit : ℕ → Bool
is_digit c = leb b'0' c && leb c b'9'

-- `isspace` in the C locale: space, \t \n \v \f \r
abbrev pub is_space : ℕ → Bool
is_space c = c == 32 || (leb 9 c && leb c 13)

unfoldable pub skip_space : Bytes → Bytes
skip_space [] = []
skip_space (c ∷ cs) = if is_space c then skip_space cs else c ∷ cs

-- The value of the digits at the front, and how many there are.
unfoldable pub read_digits : ℕ → ℕ → Bytes → ℕ × ℕ
read_digits acc n [] = (acc, n)
read_digits acc n (c ∷ cs) =
    let more = read_digits (acc * 10 + (c - b'0')) (n + 1) cs in
    if is_digit c then more else (acc, n)

-- An optional sign, then at least one digit; what stands behind the digits is ignored.
-- The result is the sign (`true` for minus) and the magnitude.
unfoldable pub read_number : Bytes → Option (Bool × ℕ)
unfolding skip_space read_digits
read_number s = signed (skip_space s)
  where
    unsigned : Bool → ℕ × ℕ → Option (Bool × ℕ)
    unsigned minus (v, zero) = none
    unsigned minus (v, suc n) = some (minus, v)

    signed : Bytes → Option (Bool × ℕ)
    signed [] = none
    signed (c ∷ cs) =
        if c == b'-'
        then unsigned true (read_digits 0 0 cs)
        else if c == b'+'
        then unsigned false (read_digits 0 0 cs)
        else unsigned false (read_digits 0 0 (c ∷ cs))

-- `std::stoi`; `none` is an exception: `invalid_argument` with no digits, `out_of_range`
-- beyond `int`.
unfoldable pub stoi : Bytes → Option ℤ
unfolding read_number
stoi s = check (read_number s)
  where
    check : Option (Bool × ℕ) → Option ℤ
    check none = none
    check (some (false, v)) = if ltb v (2 ^ 31) then some (pos v) else none
    check (some (true, zero)) = some (pos 0)
    check (some (true, suc v)) = if ltb v (2 ^ 31) then some (negsuc v) else none

-- `std::to_string` of an unsigned 64-bit value, which has at most 20 digits.
unfoldable pub digits_of : ℕ → ℕ → Bytes
digits_of zero n = []
digits_of (suc fuel) n =
    let more = digits_of fuel (n / 10) in (if ltb n 10 then [] else more) ++ ((b'0' + n % 10) ∷ [])

unfoldable pub to_string : ℕ → Bytes
unfolding digits_of
to_string n = digits_of 20 n

-- `std::stoul` and `std::stoull` on a 64-bit `unsigned long`: a minus sign negates modulo 2 ^ 64.
unfoldable pub stoull : Bytes → Option ℕ
unfolding read_number
stoull s = check (read_number s)
  where
    check : Option (Bool × ℕ) → Option ℕ
    check none = none
    check (some (minus, v)) =
        if ltb v (2 ^ 64) then some (if minus then (2 ^ 64 - v) % 2 ^ 64 else v) else none

-- `std::stoll`
unfoldable pub stoll : Bytes → Option ℤ
unfolding read_number
stoll s = check (read_number s)
  where
    check : Option (Bool × ℕ) → Option ℤ
    check none = none
    check (some (false, v)) = if ltb v (2 ^ 63) then some (pos v) else none
    check (some (true, zero)) = some (pos 0)
    check (some (true, suc v)) = if ltb v (2 ^ 63) then some (negsuc v) else none

unfoldable pub onto_first : ℕ → List Bytes → List Bytes
onto_first c [] = (c ∷ []) ∷ []
onto_first c (piece ∷ pieces) = (c ∷ piece) ∷ pieces

-- The pieces that repeated `std::getline(stream, piece, d)` reads.
unfoldable pub split_on : ℕ → Bytes → List Bytes
unfolding onto_first
split_on d [] = []
split_on d (c ∷ cs) = if c == d then [] ∷ split_on d cs else onto_first c (split_on d cs)

-- `s.erase(0, s.find_first_not_of(blanks))`
unfoldable pub drop_front : (ℕ → Bool) → Bytes → Bytes
drop_front blank [] = []
drop_front blank (c ∷ cs) = if blank c then drop_front blank cs else c ∷ cs

-- `s.erase(s.find_last_not_of(blanks) + 1)`
unfoldable pub drop_back : (ℕ → Bool) → Bytes → Bytes
drop_back blank [] = []
drop_back blank (c ∷ cs) =
    let rest = drop_back blank cs in if is_empty rest && blank c then [] else c ∷ rest

unfoldable pub strip : (ℕ → Bool) → Bytes → Bytes
unfolding drop_front drop_back
strip blank s = drop_back blank (drop_front blank s)

-- space and tab
abbrev pub is_blank : ℕ → Bool
is_blank c = c == 32 || c == 9

-- space, tab, carriage return and line feed
abbrev pub is_white : ℕ → Bool
is_white c = is_blank c || c == 13 || c == 10

unfoldable pub lower : Bytes → Bytes
lower s = map to_lower s
