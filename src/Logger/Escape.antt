-- ===== src/Logger/Escape.antt =====
-- The escaping of messages in structured logs (src/simple-ntpd/utils/logger.cpp), read back.
use simple_ntpd.Common.{
  ℕ, ◌≡◌, refl, ap, ◌∙◌, Bool, true, false, ◌||◌, ◌&&◌, not, ltb, arith, Option, none, some, [],
  ◌∷◌, ◌++◌, ◌==◌, if◌then◌else◌, Bool-cases, or_false, inl, inr,
}
use simple_ntpd.Common.Text.{Bytes}
use simple_ntpd.Logger.Message.{escape}

abbrev pub with_byte : ℕ → Option (Bytes × Bytes) → Option (Bytes × Bytes)
with_byte c none = none
with_byte c (some (s, rest)) = some (c ∷ s, rest)

-- The byte that a backslash and the byte c stand for in a JSON string.
unfoldable pub unescaped : ℕ → Option ℕ
unescaped c =
    if c == b'\\' || c == b'"'
    then some c
    else if c == b'/'
    then some c
    else if c == b'b'
    then some 8
    else if c == b'f'
    then some 12
    else if c == b'n'
    then some 10
    else if c == b'r'
    then some 13
    else if c == b't'
    then some 9
    else none

-- A JSON string behind its opening quote, as RFC 8259 has it, on bytes: up to the first quote that
-- is not escaped, with no byte below 32. The flag says that the last byte was the backslash of an
-- escape; an escape of four hexadecimal digits is not read. The result is the text and what is left.
unfoldable pub read_json : Bool → Bytes → Option (Bytes × Bytes)
read_json escaped [] = none
read_json true (c ∷ cs) =
    let rest = read_json false cs in elim (unescaped c) [ none ↦ none | some d ↦ with_byte d rest ]
read_json false (c ∷ cs) =
    let rest = read_json false cs in
    let behind = read_json true cs in
    if c == b'"'
    then some ([], cs)
    else if c == b'\\'
    then behind
    else if ltb c 32
    then none
    else with_byte c rest

-- No byte of the text is a control byte.
unfoldable pub has_no_control : Bytes → Bool
has_no_control [] = true
has_no_control (c ∷ cs) = not (ltb c 32) && has_no_control cs

with_byte-if :
    (c : ℕ) (b : Bool) (s rest : Bytes)
    → with_byte c (if b then some (s, rest) else none) ≡ (if b then some (c ∷ s, rest) else none)
with_byte-if c true s rest = refl
with_byte-if c false s rest = refl

printable : (c : ℕ) → (c == b'\\' || c == b'"') ≡ true → ltb c 32 ≡ false
printable c e = ground arith

unescaped_special : (c : ℕ) → (c == b'\\' || c == b'"') ≡ true → unescaped c ≡ some c
unfolding unescaped
unescaped_special c e = rw e refl

-- A reader of JSON strings, which knows every escape but that of four digits and refuses control
-- bytes, gives an escaped message back and ends at the quote behind it, whatever follows, if no
-- byte of the message is below 32, and refuses it otherwise.
pub read_json-escape :
    (message rest : Bytes)
    → read_json false (escape message ++ b'"' ∷ rest)
      ≡ (if has_no_control message then some (message, rest) else none)
unfolding read_json escape has_no_control
read_json-escape [] rest = refl
read_json-escape (c ∷ cs) rest = elim (Bool-cases (c == b'\\' || c == b'"')) [
  | inl special ↦
      rw (special, printable c special, unescaped_special c special)
        (ap (with_byte c) (read_json-escape cs rest) ∙ with_byte-if c (has_no_control cs) cs rest)
  | inr normal ↦
      let (no_backslash, no_quote) = or_false (c == b'\\') (c == b'"') normal in
      elim (Bool-cases (ltb c 32)) [
        | inl control ↦ rw (normal, no_quote, no_backslash, control) refl
        | inr fine ↦
            rw (normal, no_quote, no_backslash, fine)
              (ap (with_byte c) (read_json-escape cs rest)
                ∙ with_byte-if c (has_no_control cs) cs rest)
      ]
]
