-- ===== src/Config/Equivalence.antt =====
-- `parseKeyValue` (src/simple-ntpd/config/parser.cpp) against `parseCommandLineArg`
-- (src/simple-ntpd/config/config.cpp).
use simple_ntpd.Common.{
  ℕ, ◌≡◌, refl, ap, sym, ◌∙◌, true, false, Option, none, some, List, [], ◌∷◌, map, All, ◌==◌,
  if-both, Bool-cases, Option-cases, inl, inr,
}
use simple_ntpd.Common.Text.{
  Bytes, lower, split_on, onto_first, strip, drop_front, drop_back, is_blank, is_white, stoi,
  stoull,
}
use simple_ntpd.Config.{NtpConfig}
use simple_ntpd.Config.Fields.{set_flag, set_list}
use simple_ntpd.Config.Settings.{
  Setting, text, flag, port, stratum_value, level_value, auth_method, selection, signed, list,
  count, bounded, find_setting, nonempty,
}
use simple_ntpd.Config.Keys.{keys}
use simple_ntpd.Config.CommandLine.{
  is_true, read_list, on_number, perform_plain, perform, perform_found, parse_command_line_arg,
}
use simple_ntpd.Config.Parser.{
  trim, parse_list, string_to_bool, if_number, assign_key, assign_found, parse_key_value,
}
use simple_ntpd.Config.Agreement.{found-IsOption, keys-IsOption}

-- A byte that is white is a space or a tab, so no line break.
abbrev pub IsPlain : ℕ → Type 0
IsPlain b = is_white b ≡ is_blank b

drop_front-IsPlain :
    (s : Bytes)
    → All IsPlain s
    → (drop_front is_white s ≡ drop_front is_blank s) × All IsPlain (drop_front is_blank s)
unfolding drop_front
drop_front-IsPlain [] h = (refl, tt)
drop_front-IsPlain (b ∷ s) (here, there) = elim (Bool-cases (is_blank b)) [
  | inl blank ↦ let rest : _ = drop_front-IsPlain s there in rw (here, blank) rest
  | inr other ↦ rw (here, other) (refl, (here, there))
]

drop_back-IsPlain : (s : Bytes) → All IsPlain s → drop_back is_white s ≡ drop_back is_blank s
unfolding drop_back
drop_back-IsPlain [] h = refl
drop_back-IsPlain (b ∷ s) (here, there) = rw (drop_back-IsPlain s there, here) refl

trim-IsPlain : (s : Bytes) → All IsPlain s → trim s ≡ strip is_blank s
unfolding trim strip
trim-IsPlain s h =
    ap (drop_back is_white) (drop_front-IsPlain s h).0
    ∙ drop_back-IsPlain (drop_front is_blank s) (drop_front-IsPlain s h).1

module _ (P : ℕ → Type 0) where
  onto_first-All :
      (b : ℕ) (pieces : List Bytes) → P b → All (All P) pieces → All (All P) (onto_first b pieces)
  unfolding onto_first
  onto_first-All b [] h _ = ((h, tt), tt)
  onto_first-All b (piece ∷ pieces) h (here, there) = ((h, here), there)

  split_on-All : (d : ℕ) (s : Bytes) → All P s → All (All P) (split_on d s)
  unfolding split_on
  split_on-All d [] h = tt
  split_on-All d (b ∷ s) (here, there) =
      let rest : All (All P) (split_on d s) = split_on-All d s there in
      if-both (All (All P)) (b == d) ([] ∷ split_on d s) (onto_first b (split_on d s)) (tt, rest)
        (onto_first-All b (split_on d s) here rest)

map-trim :
    (pieces : List Bytes) → All (All IsPlain) pieces → map trim pieces ≡ map (strip is_blank) pieces
map-trim [] h = refl
map-trim (piece ∷ pieces) (here, there) = rw (trim-IsPlain piece here, map-trim pieces there) refl

parse_list-read_list : (v : Bytes) → All IsPlain v → parse_list v ≡ read_list v
unfolding parse_list read_list
parse_list-read_list v h = ap nonempty (map-trim (split_on b',' v) (split_on-All IsPlain b',' v h))

if_number-on_number {ℓ} :
    {A : Type ℓ} (n : Option A) (assign : A → NtpConfig → NtpConfig) (c : NtpConfig)
    → if_number n assign c ≡ (on_number n assign c).0
unfolding if_number on_number
if_number-on_number none assign c = refl
if_number-on_number (some n) assign c = refl

assign_key-perform_plain :
    (s : Setting) (v : Bytes) (c : NtpConfig)
    → string_to_bool v ≡ is_true v
    → All IsPlain v
    → assign_key s v c ≡ (perform_plain s v c).0
unfolding assign_key perform_plain
assign_key-perform_plain (text f) v c same h = refl
assign_key-perform_plain (flag f) v c same h = ap (λ b. set_flag f b c) same
assign_key-perform_plain auth_method v c same h = refl
assign_key-perform_plain selection v c same h = refl
assign_key-perform_plain (list f) v c same h = ap (λ l. set_list f l c) (parse_list-read_list v h)
assign_key-perform_plain port v c same h = if_number-on_number (stoi v) _ c
assign_key-perform_plain stratum_value v c same h = if_number-on_number (stoi v) _ c
assign_key-perform_plain level_value v c same h = if_number-on_number (stoi v) _ c
assign_key-perform_plain (signed f) v c same h = if_number-on_number (stoi v) _ c
assign_key-perform_plain (count f) v c same h = if_number-on_number (stoull v) _ c
assign_key-perform_plain (bounded f) v c same h = if_number-on_number (stoull v) _ c

-- For a key that the parser knows and a value that holds no line break and that both readers take
-- for the same truth value, the parser and the command line make the same configuration.
pub parse_key_value-parse_command_line_arg :
    (key v : Bytes) (c : NtpConfig)
    → (parse_key_value key v c).1 ≡ true
    → string_to_bool v ≡ is_true v
    → All IsPlain v
    → (parse_key_value key v c).0 ≡ (parse_command_line_arg key v c).0
unfolding parse_key_value parse_command_line_arg assign_found perform_found perform
parse_key_value-parse_command_line_arg key v c known same plain_v =
    elim (Option-cases (find_setting (lower key) keys)) [
      | inl unknown ↦
          let fails : false ≡ true = sym (ap (λ r. (assign_found r v c).1) unknown) ∙ known in cc
      | inr (s, found) ↦
          ap (λ r. (assign_found r v c).0) found
          ∙ assign_key-perform_plain s v c same plain_v
          ∙ sym (
              ap (λ r. (perform_found r v c).0)
                (found-IsOption (lower key) keys s keys-IsOption found))
    ]
