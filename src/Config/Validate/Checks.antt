-- ===== src/Config/Validate/Checks.antt =====
-- What the checks of `validateDetailed` (src/simple-ntpd/config/config.cpp) test, one by one.
use simple_ntpd.Common.{
  ℕ, ◌≤◌, ◌≡◌, ◌≢◌, ◌↔◌, ◌⊎◌, refl, arith, Bool, true, false, not, ◌&&◌, ◌||◌, List, [], ◌∷◌, ◌++◌,
  is_empty, not_empty_iff, and_false_iff, All, ltb, ◌==◌,
}
use simple_ntpd.Common.Int.{ℤ, pos, ◌≤ℤ◌, ltb_ℤ}
use simple_ntpd.Config.Validate.{ConfigError, outside, outside_ℤ, run_checks}

abbrev pub Passes : Bool × ConfigError → Type 0
Passes (failed, e) = failed ≡ false

-- An error stays.
run_checks-ne-nil :
    (errors : List ConfigError) (cs : List (Bool × ConfigError))
    → errors ≢ []
    → run_checks errors cs ≢ []
unfolding run_checks
run_checks-ne-nil errors [] h = h
run_checks-ne-nil errors ((true, e) ∷ cs) h =
    run_checks-ne-nil (errors ++ (e ∷ [])) cs (concat errors)
  where
    concat : (xs : List ConfigError) → (xs ++ (e ∷ [])) ≢ []
    concat [] p = cc
    concat (x ∷ xs) p = cc
run_checks-ne-nil errors ((false, e) ∷ cs) h = run_checks-ne-nil errors cs h

pub run_checks_iff : (cs : List (Bool × ConfigError)) → (run_checks [] cs ≡ []) ↔ All Passes cs
unfolding run_checks
run_checks_iff [] = ((λ e. tt), (λ h. refl))
run_checks_iff ((true, e) ∷ cs) =
    ((λ p. absurd (run_checks-ne-nil (e ∷ []) cs (λ q. cc) p)), (λ h. cc (h.0)))
run_checks_iff ((false, e) ∷ cs) =
    let ih = run_checks_iff cs in ((λ p. (refl, ih.0 p)), (λ h. ih.1 h.1))

pub outside_iff : (lo hi n : ℕ) → (outside lo hi n ≡ false) ↔ ((lo ≤ n) × (n ≤ hi))
outside_iff lo hi n = ground arith

pub outside_ℤ_iff :
    (lo hi : ℕ) (n : ℤ) → (outside_ℤ lo hi n ≡ false) ↔ ((pos lo ≤ℤ n) × (n ≤ℤ pos hi))
outside_ℤ_iff lo hi n = ground arith

pub flag_list_iff {ℓ} :
    {A : Type ℓ} (b : Bool) (xs : List A) → ((b && is_empty xs) ≡ false) ↔ (b ≡ true → xs ≢ [])
flag_list_iff false xs = ((λ h e. cc), (λ h. refl))
flag_list_iff true xs = ((λ h e. (not_empty_iff xs).0 h), (λ h. (not_empty_iff xs).1 (h refl)))

pub unused_list_iff {ℓ} :
    {A : Type ℓ} (b : Bool) (xs : List A)
    → ((not b && not (is_empty xs)) ≡ false) ↔ (b ≡ false → xs ≡ [])
unused_list_iff true xs = ((λ h e. cc), (λ h. refl))
unused_list_iff false [] = ((λ h e. refl), (λ h. refl))
unused_list_iff false (x ∷ xs) = ((λ h e. cc), (λ h. cc (h refl)))

pub flag_zero_iff : (b : Bool) (n : ℕ) → ((b && n == 0) ≡ false) ↔ (b ≡ true → n ≢ 0)
flag_zero_iff true n = ((λ h e. ground arith), (λ h. ground (arith, h refl)))
flag_zero_iff false n = ((λ h e. cc), (λ h. refl))

pub or_true_iff : (a b : Bool) → ((a || b) ≡ true) ↔ ((a ≡ true) ⊎ (b ≡ true))
or_true_iff a b = ground arith

pub or_false_iff : (a b : Bool) → ((a || b) ≡ false) ↔ ((a ≡ false) × (b ≡ false))
or_false_iff a b = ground arith

pub either_files_iff {ℓ} :
    {A : Type ℓ} (a b : Bool) (xs ys : List A)
    → (((a || b) && (is_empty xs || is_empty ys)) ≡ false)
      ↔ ((a ≡ true) ⊎ (b ≡ true) → (xs ≢ []) × (ys ≢ []))
either_files_iff a b xs ys = (
  (λ h e.
      let present = (or_false_iff _ _).0 ((and_false_iff (a || b) _).0 h ((or_true_iff a b).1 e)) in
      ((not_empty_iff xs).0 present.0, (not_empty_iff ys).0 present.1)),
  (λ h. (and_false_iff (a || b) _).1 (λ e.
      let present = h ((or_true_iff a b).0 e) in
      (or_false_iff _ _).1 ((not_empty_iff xs).1 present.0, (not_empty_iff ys).1 present.1))),
)

pub size_iff : (n : ℕ) → ((ltb 0 n && ltb n 1024) ≡ false) ↔ ((n ≡ 0) ⊎ (1024 ≤ n))
size_iff n = ground arith

pub four_iff : (n : ℕ) → (not (n == 4) ≡ false) ↔ (n ≡ 4)
four_iff n = ground arith

pub stratum_iff : (n : ℕ) → (ltb 15 n ≡ false) ↔ (n ≤ 15)
stratum_iff n = ground arith

-- The test of `stats_interval` that the range test already covers.
pub stats_interval_redundant :
    (b : Bool) (n : ℤ) → pos 1 ≤ℤ n → (b && not (ltb_ℤ (pos 0) n)) ≡ false
stats_interval_redundant b n h = ground arith
