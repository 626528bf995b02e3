-- ===== src/Net/Cidr.antt =====
-- What a match with a CIDR block means.
use simple_ntpd.Common.{
  ℕ, zero, suc, ◌+◌, ◌-◌, ◌*◌, ◌/◌, ◌^◌, ◌≤◌, ◌<◌, ◌≡◌, refl, ap, ◌∙◌, arith, Bool, true, ◌&&◌,
  Option, none, some, ◌==◌, ==_iff, take, drop, bit_and,
}
use native.Mathlib.Decide.{ℕ_discrete}
use native.Mathlib.Nat.{div-lt_iff_lt-mul, mul-div_cancel, mod-eq_of_lt, one-le-pow}
use simple_ntpd.Common.Bits.{bit_and_mask}
use simple_ntpd.Common.Int.{pos}
use simple_ntpd.Common.Text.{Bytes, find, stoi}
use simple_ntpd.Common.Result.{ok, exception}
use simple_ntpd.Net.{prefix_mask, in_block, is_ip_in_cidr}

-- For each prefix length: the mask is that many ones at the top, and the two powers fill the word.
row : ℕ → Bool
row n = prefix_mask n == (2 ^ n - 1) * 2 ^ (32 - n) && 2 ^ n * 2 ^ (32 - n) == 2 ^ 32

table : ℕ → Bool
unfolding row
table zero = true
table (suc n) = row n && table n

and_true : (a b : Bool) → (a && b) ≡ true → (a ≡ true) × (b ≡ true)
and_true a b h = ground arith

table_at : (n p : ℕ) → table n ≡ true → p < n → row p ≡ true
unfolding table
table_at zero p t h = absurd (omega arith)
table_at (suc n) p t h = elim (ℕ_discrete p n) [
  | yes e ↦ rw e (and_true (row n) (table n) t).0
  | no e ↦ table_at n p (and_true (row n) (table n) t).1 (omega arith)
]

table_holds : table 33 ≡ true
unfolding table
table_holds = refl

row_facts :
    (p : ℕ)
    → p ≤ 32
    → (prefix_mask p ≡ (2 ^ p - 1) * 2 ^ (32 - p)) × (2 ^ p * 2 ^ (32 - p) ≡ 2 ^ 32)
unfolding row
row_facts p h =
    let (m, w) = and_true _ _ (table_at 33 p table_holds (omega arith)) in
    ((==_iff _ _).0 m, (==_iff _ _).0 w)

masked :
    (p a : ℕ) → p ≤ 32 → a < 2 ^ 32 → bit_and a (prefix_mask p) ≡ a / 2 ^ (32 - p) * 2 ^ (32 - p)
masked p a hp ha =
    let (mask, width) = row_facts p hp in
    let below =
      (div-lt_iff_lt-mul (one-le-pow (32 - p) 2 (omega arith))).1 (omega (arith, width)) in
    ap (bit_and a) mask
    ∙ bit_and_mask (32 - p) p a
    ∙ ap (λ (t : ℕ). t * 2 ^ (32 - p)) (mod-eq_of_lt below)

scaled_test : (x y k : ℕ) → 0 < k → (x * k == y * k) ≡ (x == y)
scaled_test x y k h = ground (arith, ap (λ (t : ℕ). t / k), mul-div_cancel x h, mul-div_cancel y h)

module _ (inet_pton : Bytes → Option ℕ) where
  -- For a block with a prefix length of at most 32 behind its slash, and addresses of 32 bits for
  -- the client and the block's base, the match holds exactly if the two addresses agree in their
  -- first bits, as many as the prefix length.
  pub in_cidr_iff :
      (ip cidr : Bytes) (slash p a b : ℕ)
      → find b'/' cidr ≡ some slash
      → stoi (drop (slash + 1) cidr) ≡ some (pos p)
      → p ≤ 32
      → inet_pton ip ≡ some a
      → inet_pton (take slash cidr) ≡ some b
      → a < 2 ^ 32
      → b < 2 ^ 32
      → is_ip_in_cidr inet_pton ip cidr ≡ ok (a / 2 ^ (32 - p) == b / 2 ^ (32 - p))
  unfolding is_ip_in_cidr
  in_cidr_iff ip cidr slash p a b f s hp ea eb ha hb = ground (
    arith,
    masked p a hp ha,
    masked p b hp hb,
    scaled_test (a / 2 ^ (32 - p)) (b / 2 ^ (32 - p)) (2 ^ (32 - p))
        (one-le-pow (32 - p) 2 (omega arith)),
  )

-- A block with no number behind its slash ends in the exception of `stoi`.
pub unreadable_block :
    (inet_pton : Bytes → Option ℕ) (ip block : Bytes) (slash : ℕ)
    → find b'/' block ≡ some slash
    → stoi (drop (slash + 1) block) ≡ none
    → is_ip_in_cidr inet_pton ip block ≡ exception
unfolding is_ip_in_cidr in_block
unreadable_block inet_pton ip block slash f n = ground arith
