-- ===== src/Common/Text/Laws.antt =====
-- Laws of the operations on strings that the readers of settings rest on.
use simple_ntpd.Common.{
  ℕ, suc, ◌+◌, ◌≡◌, refl, ap, sym, ◌∙◌, arith, Bool, true, false, some, List, [], ◌∷◌, ◌++◌, All,
  append-All, ◌==◌, ==_iff, ◌&&◌, if◌then◌else◌, if-true, is_empty, length, take, drop, get_or,
  Bool-cases, inl, inr,
}
use simple_ntpd.Common.Text.{Bytes, find, split_on, drop_front, drop_back, strip}

-- A string without the byte d.
abbrev pub Avoids : ℕ → Bytes → Type 0
Avoids d s = All (λ b. (b == d) ≡ false) s

pub append-Avoids : (d : ℕ) (s t : Bytes) → Avoids d s → Avoids d t → Avoids d (s ++ t)
append-Avoids d s t = append-All (λ b. (b == d) ≡ false) s t

module _ {ℓ} {A : Type ℓ} where
  pub take-length_append : (s t : List A) → take (length s) (s ++ t) ≡ s
  take-length_append [] t = refl
  take-length_append (x ∷ s) t = ap (λ r. x ∷ r) (take-length_append s t)

  pub drop-length_append : (s t : List A) (d : A) → drop (length s + 1) (s ++ d ∷ t) ≡ t
  drop-length_append [] t d = refl
  drop-length_append (x ∷ s) t d = ap (λ n. drop n (x ∷ s ++ d ∷ t)) more ∙ drop-length_append s t d
    where
      more : length (x ∷ s) + 1 ≡ suc (length s + 1)
      more = omega arith

  pub get_or-last : (s : List A) (b d : A) → get_or (s ++ b ∷ []) (length s) d ≡ b
  get_or-last [] b d = refl
  get_or-last (x ∷ s) b d = get_or-last s b d

  pub is_empty-append : (s t : List A) (b : A) → is_empty (s ++ b ∷ t) ≡ false
  is_empty-append [] t b = refl
  is_empty-append (x ∷ s) t b = refl

  pub append_assoc : (r s t : List A) → (r ++ s) ++ t ≡ r ++ (s ++ t)
  append_assoc [] s t = refl
  append_assoc (x ∷ r) s t = ap (λ l. x ∷ l) (append_assoc r s t)

pub and_false : (a : Bool) → (a && false) ≡ false
and_false true = refl
and_false false = refl

pub find-append : (d : ℕ) (s t : Bytes) → Avoids d s → find d (s ++ d ∷ t) ≡ some (length s)
unfolding find
find-append d [] t h = if-true (d == d) _ _ ((==_iff d d).1 refl)
find-append d (x ∷ s) t (here, there) = rw (here, find-append d s t there) (ap some (omega arith))

pub split_on-append :
    (d : ℕ) (s t : Bytes) → Avoids d s → split_on d (s ++ d ∷ t) ≡ s ∷ split_on d t
unfolding split_on
split_on-append d [] t h = if-true (d == d) _ _ ((==_iff d d).1 refl)
split_on-append d (x ∷ s) t (here, there) = rw (here, split_on-append d s t there) refl

module _ (blank : ℕ → Bool) where
  pub drop_front-kept : (b : ℕ) (s : Bytes) → blank b ≡ false → drop_front blank (b ∷ s) ≡ b ∷ s
  unfolding drop_front
  drop_front-kept b s h = rw h refl

  -- Nothing in front of a byte that is kept is dropped.
  pub drop_back-append :
      (s t : Bytes) (b : ℕ)
      → blank b ≡ false
      → drop_back blank (s ++ b ∷ t) ≡ s ++ b ∷ drop_back blank t
  unfolding drop_back
  drop_back-append [] t b h = rw (h, and_false (is_empty (drop_back blank t))) refl
  drop_back-append (x ∷ s) t b h =
      rw (drop_back-append s t b h, is_empty-append s (drop_back blank t) b) refl

  -- A string whose first and last bytes are kept is kept.
  pub strip-kept :
      (a b : ℕ) (s : Bytes)
      → blank a ≡ false
      → blank b ≡ false
      → strip blank (a ∷ s ++ b ∷ []) ≡ a ∷ s ++ b ∷ []
  unfolding strip drop_back
  strip-kept a b s first last =
      ap (drop_back blank) (drop_front-kept a (s ++ b ∷ []) first)
      ∙ drop_back-append (a ∷ s) [] b last

  drop_back-twice : (s : Bytes) → drop_back blank (drop_back blank s) ≡ drop_back blank s
  unfolding drop_back
  drop_back-twice [] = refl
  drop_back-twice (b ∷ s) = elim (Bool-cases (is_empty (drop_back blank s) && blank b)) [
    | inl none_kept ↦ rw none_kept refl
    | inr kept ↦ rw (kept, drop_back-twice s, kept) refl
  ]

  drop_front-kept_back :
      (b : ℕ) (r : Bytes)
      → blank b ≡ true
      → drop_front blank (if is_empty r && blank b then [] else b ∷ r) ≡ drop_front blank r
  unfolding drop_front
  drop_front-kept_back b [] h = rw h refl
  drop_front-kept_back b (x ∷ r) h = if-true (blank b) _ _ h

  drop_front-drop_back :
      (s : Bytes) → drop_front blank (drop_back blank s) ≡ drop_back blank (drop_front blank s)
  unfolding drop_front drop_back
  drop_front-drop_back [] = refl
  drop_front-drop_back (b ∷ s) = elim (Bool-cases (blank b)) [
    | inl h ↦
        drop_front-kept_back b (drop_back blank s) h
        ∙ drop_front-drop_back s
        ∙ ap (drop_back blank) (sym (if-true (blank b) (drop_front blank s) (b ∷ s) h))
    | inr h ↦
        rw
          (h, and_false (is_empty (drop_back blank s)), h, and_false (is_empty (drop_back blank s)))
          refl
  ]

  pub strip-drop_back : (s : Bytes) → strip blank (drop_back blank s) ≡ strip blank s
  unfolding strip
  strip-drop_back s =
      ap (drop_back blank) (drop_front-drop_back s) ∙ drop_back-twice (drop_front blank s)

  drop_back-blank :
      (s : Bytes) (b : ℕ) → blank b ≡ true → drop_back blank (s ++ b ∷ []) ≡ drop_back blank s
  unfolding drop_back
  drop_back-blank [] b h = rw h refl
  drop_back-blank (x ∷ s) b h = rw (drop_back-blank s b h) refl

  -- A blank at the end does not matter.
  pub strip-blank : (s : Bytes) (b : ℕ) → blank b ≡ true → strip blank (s ++ b ∷ []) ≡ strip blank s
  unfolding strip drop_front drop_back
  strip-blank [] b h = rw h refl
  strip-blank (x ∷ s) b h = elim (Bool-cases (blank x)) [
    | inl dropped ↦ rw dropped (strip-blank s b h)
    | inr kept ↦ rw kept (drop_back-blank (x ∷ s) b h)
  ]
