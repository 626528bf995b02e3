-- ===== src/Server/State/Backup.antt =====
-- The backup of the configuration file (src/simple-ntpd/core/server.cpp).
use simple_ntpd.Common.{
  ◌≡◌, ◌≢◌, refl, ap, ◌∙◌, arith, Bool, true, false, ◌||◌, none, some, [], if◌then◌else◌, is_empty,
  inl, inr, Option-cases,
}
use simple_ntpd.Common.Text.{Bytes, equal}
use simple_ntpd.Logger.Files.{FileSystem, put, exists, contents_of}
use simple_ntpd.Logger.Rotation.{put-same, put-other}
use simple_ntpd.Server.{NtpServer}
use simple_ntpd.Server.State.{backup_config}

-- Both files are named.
abbrev pub HasBackup : NtpServer → Type 0
HasBackup s = is_empty s.config.backup_config_file || is_empty s.config.last_config_file ≡ false

module _ (s : NtpServer) (files : FileSystem) (named : HasBackup s) where
  abbrev source : Bytes
  source = s.config.last_config_file

  abbrev backup : Bytes
  backup = s.config.backup_config_file

  abbrev truncated : FileSystem
  truncated = put backup (some []) files

  missing : files source ≡ none → backup_config true s files ≡ truncated
  unfolding exists backup_config
  missing absent = rw (named, absent) refl

  copied :
      (content : Bytes)
      → files source ≡ some content
      → backup_config true s files ≡ put backup (some (contents_of (truncated source))) truncated
  unfolding exists backup_config
  copied content there = rw (named, there) refl

  -- What the read of the source finds.
  found :
      contents_of (truncated source)
      ≡ (if equal source backup then [] else contents_of (files source))
  unfolding put
  found = ground arith

  -- If both files are named and the backup can be opened, then it holds the contents of the
  -- configuration file, or nothing if that is missing or is the backup itself, and every other
  -- file is as it was.
  backup_config_contents :
      (backup_config true s files s.config.backup_config_file
        ≡ some (
            if equal s.config.last_config_file s.config.backup_config_file
            then []
            else contents_of (files s.config.last_config_file)))
      × ((p : Bytes) → p ≢ s.config.backup_config_file → backup_config true s files p ≡ files p)
  backup_config_contents = elim (Option-cases (files source)) [
    | inl absent ↦ (
      at backup (missing absent)
          ∙ put-same backup (some []) files
          ∙ ap some (nothing (equal source backup) absent),
      λ p other. at p (missing absent) ∙ put-other backup (some []) files p other,
    )
    | inr (content, there) ↦ (
      at backup (copied content there)
          ∙ put-same backup (some (contents_of (truncated source))) truncated
          ∙ ap some found,
      λ p other.
          at p (copied content there)
          ∙ put-other backup (some (contents_of (truncated source))) truncated p other
          ∙ put-other backup (some []) files p other,
    )
  ]
    where
      at : {f g : FileSystem} (p : Bytes) → f ≡ g → f p ≡ g p
      at p e = ap (λ (h : FileSystem). h p) e

      nothing :
          (b : Bool) → files source ≡ none → [] ≡ (if b then [] else contents_of (files source))
      nothing true absent = refl
      nothing false absent = rw absent refl
