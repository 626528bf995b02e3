-- ===== src/Common/Text/Lines.antt =====
-- Texts made of lines, as the program writes them, and what a reader of such a text finds.
use simple_ntpd.Common.{
  ℕ, ◌≡◌, refl, ap, sym, ◌∙◌, arith, Bool, true, false, Option, none, some, List, [], ◌∷◌, ◌++◌,
  All, ◌==◌, ==_iff, if◌then◌else◌, ◌&&◌, ◌||◌, not,
}
use simple_ntpd.Common.Text.{Bytes, split_on, to_string}
use simple_ntpd.Common.Text.Digits.{to_string-Avoids}
use simple_ntpd.Common.Text.Laws.{Avoids, append-Avoids, split_on-append, append_assoc}

-- Every line with its line break.
unfoldable pub unlines : List Bytes → Bytes
unlines [] = []
unlines (l ∷ ls) = l ++ 10 ∷ unlines ls

pub split_on-unlines : (ls : List Bytes) → All (Avoids 10) ls → split_on 10 (unlines ls) ≡ ls
unfolding unlines split_on
split_on-unlines [] h = refl
split_on-unlines (l ∷ ls) (here, there) =
    split_on-append 10 l (unlines ls) here ∙ ap (λ rest. l ∷ rest) (split_on-unlines ls there)

pub unlines-append : (ls ks : List Bytes) → unlines (ls ++ ks) ≡ unlines ls ++ unlines ks
unfolding unlines
unlines-append [] ks = refl
unlines-append (l ∷ ls) ks =
    ap (λ rest. l ++ 10 ∷ rest) (unlines-append ls ks)
    ∙ sym (append_assoc l (10 ∷ unlines ls) (unlines ks))

pub split_on-unlines_append :
    (ls : List Bytes) (s : Bytes)
    → All (Avoids 10) ls
    → split_on 10 (unlines ls ++ s) ≡ ls ++ split_on 10 s
unfolding unlines
split_on-unlines_append [] s h = refl
split_on-unlines_append (l ∷ ls) s (here, there) =
    ap (split_on 10) (append_assoc l (10 ∷ unlines ls) s)
    ∙ split_on-append 10 l (unlines ls ++ s) here
    ∙ ap (λ rest. l ∷ rest) (split_on-unlines_append ls s there)

-- What follows a prefix, if a line begins with it.
unfoldable pub behind_prefix : Bytes → Bytes → Option Bytes
behind_prefix [] s = some s
behind_prefix (p ∷ ps) [] = none
behind_prefix (p ∷ ps) (c ∷ s) = if p == c then behind_prefix ps s else none

-- What follows the prefix in the first line that begins with it.
unfoldable pub find_behind : Bytes → List Bytes → Option Bytes
find_behind prefix [] = none
find_behind prefix (l ∷ ls) = elim (behind_prefix prefix l) [
  | none ↦ find_behind prefix ls
  | some rest ↦ some rest
]

pub behind_prefix-append : (prefix s : Bytes) → behind_prefix prefix (prefix ++ s) ≡ some s
unfolding behind_prefix
behind_prefix-append [] s = refl
behind_prefix-append (p ∷ ps) s = rw ((==_iff p p).1 refl) (behind_prefix-append ps s)

abbrev pub is_found : Option Bytes → Bool
is_found none = false
is_found (some rest) = true

-- `s.find(word) != npos`
unfoldable pub contains : Bytes → Bytes → Bool
contains word [] = is_found (behind_prefix word [])
contains word (c ∷ s) = is_found (behind_prefix word (c ∷ s)) || contains word s

-- The test that a text, mostly a literal, holds no byte d.
unfoldable pub lacks : ℕ → Bytes → Bool
lacks d [] = true
lacks d (c ∷ s) = not (c == d) && lacks d s

pub lacks-Avoids : (d : ℕ) (s : Bytes) → lacks d s ≡ true → Avoids d s
unfolding lacks
lacks-Avoids d [] h = tt
lacks-Avoids d (c ∷ s) h = (ground arith, lacks-Avoids d s (ground arith))

-- A number on a line of literals.
pub number_line-Avoids :
    (before : Bytes) (n : ℕ) (after : Bytes)
    → lacks 10 before ≡ true
    → lacks 10 after ≡ true
    → Avoids 10 (before ++ (to_string n ++ after))
number_line-Avoids before n after h k =
    append-Avoids 10 before (to_string n ++ after) (lacks-Avoids 10 before h)
      (append-Avoids 10 (to_string n) after (to_string-Avoids 10 n refl) (lacks-Avoids 10 after k))
