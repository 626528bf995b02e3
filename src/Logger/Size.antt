-- ===== src/Logger/Size.antt =====
-- The size of the log file (src/simple-ntpd/utils/logger.cpp).
use simple_ntpd.Common.{
  ℕ, ◌+◌, ◌^◌, ◌≤◌, ◌<◌, ◌≡◌, ap, sym, ◌∙◌, arith, false, not, ◌&&◌, some, [], ◌∷◌, ◌++◌,
  if◌then◌else◌, ltb, leb, lt→ltb, is_empty, length, length-append, Bool-cases, Option-cases, inl,
  inr,
}
use simple_ntpd.Common.Text.{Bytes}
use simple_ntpd.Logger.{Logger, needs_rotation, rotate_logs, output_to_file}
use simple_ntpd.Logger.Files.{FileSystem, is_some, contents_of, exists, file_size, append}
use simple_ntpd.Logger.Rotation.{put-same, rotate_logs-IsRotated}

-- The log file after s has been appended.
size-append :
    (name s : Bytes) (files : FileSystem)
    → file_size name (append name s files) ≡ file_size name files + length s
unfolding file_size append
size-append name s files =
    ap (λ c. length (contents_of c)) (put-same name (some (contents_of (files name) ++ s)) files)
    ∙ length-append (contents_of (files name)) s

module _ (l : Logger) (files : FileSystem) where
  -- A file that is not rotated is below the limit.
  kept_small :
      is_empty l.log_file ≡ false
      → 1 ≤ l.rotate_max_size_bytes
      → needs_rotation l files ≡ false
      → file_size l.log_file files < l.rotate_max_size_bytes
  unfolding needs_rotation exists file_size
  kept_small named limited kept = elim (Option-cases (files l.log_file)) [
    | inl absent ↦ rw absent limited
    | inr (c, there) ↦
        let size : ℕ = file_size l.log_file files in
        let max : ℕ = l.rotate_max_size_bytes in
        let below : leb max size ≡ false =
          sym (
            ap (λ b. not b && ltb 0 max && is_some (files l.log_file) && leb max size) named
            ∙ ap (λ b. b && is_some (files l.log_file) && leb max size) (lt→ltb 0 max limited)
            ∙ ap (λ r. is_some r && leb max size) there)
          ∙ kept in
        ground (arith, below)
  ]

  rotated_small :
      1 ≤ l.rotate_max_files
      → l.rotate_max_files < 2 ^ 31
      → file_size l.log_file (rotate_logs l.log_file l.rotate_max_files files) ≡ 0
  unfolding file_size
  rotated_small low high =
      ap (λ c. length (contents_of c))
        (rotate_logs-IsRotated l.log_file l.rotate_max_files files low high).0

  -- With a log file named, a size limit of at least 1 and 1 to 2 ^ 31 - 1 old logs, the log file
  -- after a message is at most as long as the limit and the message together.
  pub output_to_file-size :
      (s : Bytes)
      → is_empty l.log_file ≡ false
      → 1 ≤ l.rotate_max_size_bytes
      → 1 ≤ l.rotate_max_files
      → l.rotate_max_files < 2 ^ 31
      → file_size l.log_file (output_to_file l s files) ≤ l.rotate_max_size_bytes + length s
  unfolding output_to_file
  output_to_file-size s named limited low high =
      let base : FileSystem =
        if needs_rotation l files then rotate_logs l.log_file l.rotate_max_files files else files in
      let grown : file_size l.log_file (append l.log_file (s ++ 10 ∷ []) base)
          ≡ file_size l.log_file base + length (s ++ 10 ∷ []) =
        size-append l.log_file (s ++ 10 ∷ []) base in
      let small : file_size l.log_file base < l.rotate_max_size_bytes =
        elim (Bool-cases (needs_rotation l files)) [
          | inl full ↦ rw full (omega (arith, rotated_small low high, limited))
          | inr kept ↦ rw kept (kept_small named limited kept)
        ] in
      omega (arith, grown, small, length-append s (10 ∷ []))
