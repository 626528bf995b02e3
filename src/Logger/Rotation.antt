-- ===== src/Logger/Rotation.antt =====
-- The rotation of the log files (src/simple-ntpd/utils/logger.cpp) against its specification: the
-- log and its old logs move on by one, the oldest is dropped.
use simple_ntpd.Common.{
  ℕ, zero, suc, ◌+◌, ◌-◌, ◌^◌, ◌≤◌, ◌<◌, ◌≡◌, ◌≢◌, refl, ap, sym, ◌∙◌, arith, Bool, true, false,
  Option, none, if◌then◌else◌, if-true, if-false, false_iff, leb, leb→le, Bool-cases, Option-cases,
  inl, inr,
}
use simple_ntpd.Common.Int.{pos_part, to_signed}
use simple_ntpd.Common.Text.{Bytes, equal, equal_iff}
use simple_ntpd.Logger.{old_log, move_if_there, shift_logs, rotate_logs}
use simple_ntpd.Logger.Files.{FileSystem, is_some, put, exists, remove, rename}
use simple_ntpd.Logger.OldLogs.{old_log-injective, old_log-other}

module _ (path : Bytes) (contents : Option Bytes) (files : FileSystem) where
  pub put-same : put path contents files path ≡ contents
  unfolding put
  put-same = if-true (equal path path) _ _ ((equal_iff path path).1 refl)

  pub put-other : (p : Bytes) → p ≢ path → put path contents files p ≡ files p
  unfolding put
  put-other p d =
      if-false (equal p path) _ _ ((false_iff (equal p path)).1 (λ h. d ((equal_iff p path).0 h)))

-- A move to a free path, whether there is a file to move or not.
module _ (src dst : Bytes) (files : FileSystem) (apart : src ≢ dst) (free : files dst ≡ none) where
  moved_as :
      (b : Bool)
      → exists src files ≡ b
      → (p : Bytes) → move_if_there src dst files p ≡ (if b then rename src dst files else files) p
  unfolding move_if_there
  moved_as b e p = ap (λ x. (if x then rename src dst files else files) p) e

  moved_to : move_if_there src dst files dst ≡ files src
  unfolding exists rename
  moved_to = elim (Option-cases (files src)) [
    | inl absent ↦ moved_as false (ap is_some absent) dst ∙ free ∙ sym absent
    | inr (s, there) ↦
        moved_as true (ap is_some there) dst ∙ put-same dst (files src) (put src none files)
  ]

  moved_from : move_if_there src dst files src ≡ none
  unfolding exists rename
  moved_from = elim (Option-cases (files src)) [
    | inl absent ↦ moved_as false (ap is_some absent) src ∙ absent
    | inr (s, there) ↦
        moved_as true (ap is_some there) src
        ∙ put-other dst (files src) (put src none files) src apart
        ∙ put-same src none files
  ]

  moved_other : (p : Bytes) → p ≢ src → p ≢ dst → move_if_there src dst files p ≡ files p
  unfolding exists rename
  moved_other p not_src not_dst = elim (Option-cases (files src)) [
    | inl absent ↦ moved_as false (ap is_some absent) p
    | inr (s, there) ↦
        moved_as true (ap is_some there) p
        ∙ put-other dst (files src) (put src none files) p not_dst
        ∙ put-other src none files p not_src
  ]

-- p is none of the old logs 1 to n.
abbrev pub IsOther : Bytes → ℕ → Bytes → Type 0
IsOther name n p = (j : ℕ) → 1 ≤ j → j ≤ n → p ≢ old_log name j

-- What moving the first i old logs on by one makes of the files, when the place behind them is free.
module _ (name : Bytes) where
  IsShifted : ℕ → FileSystem → FileSystem → Type 0
  IsShifted i before after =
      (after (old_log name 1) ≡ none)
      × ((j : ℕ) → 1 ≤ j → j ≤ i → after (old_log name (j + 1)) ≡ before (old_log name j))
      × ((p : Bytes) → IsOther name (i + 1) p → after p ≡ before p)

  old_logs_apart : (i j : ℕ) → i < 2 ^ 32 → j < 2 ^ 32 → i ≢ j → old_log name i ≢ old_log name j
  old_logs_apart i j hi hj d same =
      d (old_log-injective name i j (omega (arith, hi)) (omega (arith, hj)) same)

  shift_logs-IsShifted :
      (i : ℕ) (files : FileSystem)
      → i + 2 < 2 ^ 32
      → files (old_log name (i + 1)) ≡ none
      → IsShifted i files (shift_logs name i files)
  unfolding IsShifted shift_logs
  shift_logs-IsShifted zero files small free =
      (free, (λ j low high. absurd (omega (arith, low, high))), (λ p other. refl))
  shift_logs-IsShifted (suc i) files small free =
      let this : Bytes = old_log name (i + 1) in
      let above : Bytes = old_log name (i + 2) in
      let next : FileSystem = move_if_there this above files in
      let apart : this ≢ above =
        old_logs_apart (i + 1) (i + 2) (omega (arith, small)) (omega (arith, small))
          (λ e. omega (arith, e)) in
      let free_above : files above ≡ none = ap (λ n. files (old_log name n)) (omega arith) ∙ free in
      let (first, shifted, others) =
        shift_logs-IsShifted i next (omega (arith, small))
          (moved_from this above files apart free_above) in
      let behind : shift_logs name i next above ≡ files this =
        others above (λ j low high.
          old_logs_apart (i + 2) j (omega (arith, small)) (omega (arith, small, high))
            (λ e. omega (arith, e, high)))
        ∙ moved_to this above files apart free_above in
      (
        first,
        (λ j low high. elim (Bool-cases (leb j i)) [
          | inl lower ↦
              shifted j low (leb→le j i lower)
              ∙ moved_other this above files apart free_above (old_log name j)
                  (old_logs_apart j (i + 1) (omega (arith, small, high)) (omega (arith, small))
                    (λ e. ground (arith, e, lower)))
                  (old_logs_apart j (i + 2) (omega (arith, small, high)) (omega (arith, small))
                    (λ e. ground (arith, e, high)))
          | inr top ↦
              let last : j ≡ i + 1 = ground (arith, top, high) in
              ap (λ n. shift_logs name i next (old_log name n)) (omega (arith, last))
              ∙ behind
              ∙ ap (λ n. files (old_log name n)) (sym last)
        ]),
        (λ p other.
            others p (λ j low high. other j low (omega (arith, high)))
            ∙ moved_other this above files apart free_above p
                (other (i + 1) (omega arith) (omega arith))
                (other (i + 2) (omega arith) (omega arith))),
      )

-- A log file and its old logs after a rotation: the log is gone, what it held is the first old log,
-- every old log but the last has moved on by one, and every other file is as it was.
abbrev pub IsRotated : Bytes → ℕ → FileSystem → FileSystem → Type 0
IsRotated name n before after =
    (after name ≡ none)
    × (after (old_log name 1) ≡ before name)
    × ((j : ℕ) → 1 ≤ j → j < n → after (old_log name (j + 1)) ≡ before (old_log name j))
    × ((p : Bytes) → p ≢ name → IsOther name n p → after p ≡ before p)

count : (n : ℕ) → 1 ≤ n → n < 2 ^ 31 → pos_part (to_signed (2 ^ 32) n) - 1 + 1 ≡ n
unfolding to_signed
count n low high = ground (arith, low, high)

rotation :
    (name : Bytes) (i max_files : ℕ) (files : FileSystem)
    → i + 1 ≡ max_files
    → max_files < 2 ^ 31
    → IsRotated name max_files files (
        move_if_there name
          (old_log name 1)
          (shift_logs name i (remove (old_log name max_files) files)))
unfolding remove IsShifted
rotation name i max_files files count high =
    let first : Bytes = old_log name 1 in
    let oldest : Bytes = old_log name max_files in
    let removed : FileSystem = put oldest none files in
    let (free_first, shifted, others) =
      shift_logs-IsShifted name i removed (omega (arith, count, high))
        (ap (λ n. removed (old_log name n)) count ∙ put-same oldest none files) in
    let after_shift : FileSystem = shift_logs name i removed in
    let not_old : (j : ℕ) → name ≢ old_log name j = λ j e. old_log-other name j (sym e) in
    (
      moved_from name first after_shift (not_old 1) free_first,
      moved_to name first after_shift (not_old 1) free_first
          ∙ others name (λ j low high. not_old j)
          ∙ put-other oldest none files name (not_old max_files),
      (λ j low below.
          moved_other name first after_shift (not_old 1) free_first (old_log name (j + 1))
            (old_log-other name (j + 1))
            (old_logs_apart name (j + 1) 1 (omega (arith, below, high)) (omega arith)
              (λ e. omega (arith, e, low)))
          ∙ shifted j low (omega (arith, below, count))
          ∙ put-other oldest none files (old_log name j) (
              old_logs_apart name j max_files (omega (arith, below, high)) (omega (arith, high))
                (λ e. omega (arith, e, below)))),
      (λ p not_name other.
          moved_other name first after_shift (not_old 1) free_first p not_name
            (other 1 (omega arith) (omega (arith, count)))
          ∙ others p (λ j low up. other j low (omega (arith, up, count)))
          ∙ put-other oldest none files p (other max_files (omega (arith, count)) (omega arith))),
    )

-- For 1 to 2 ^ 31 - 1 old logs a rotation leaves no log file, makes its contents the first old
-- log, moves every old log but the last on by one, and leaves every other file as it was.
pub rotate_logs-IsRotated :
    (name : Bytes) (max_files : ℕ) (files : FileSystem)
    → 1 ≤ max_files
    → max_files < 2 ^ 31
    → IsRotated name max_files files (rotate_logs name max_files files)
unfolding rotate_logs
rotate_logs-IsRotated name max_files files low high =
    rotation name (pos_part (to_signed (2 ^ 32) max_files) - 1) max_files files
      (count max_files low high) high
