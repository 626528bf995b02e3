-- ===== src/Server/State.antt =====
-- `persistState`, `loadState` and `backupConfig` (src/simple-ntpd/core/server.cpp): the files that the
-- server writes at its stop, and what it reads of them at its start.
pub mod Persisted
pub mod Backup
mod Runs
use simple_ntpd.Common.{
  ℕ, Bool, true, false, not, ◌&&◌, ◌||◌, Option, none, some, List, [], ◌∷◌, ◌++◌, if◌then◌else◌,
  is_empty,
}
use simple_ntpd.Common.Text.{Bytes, codes, to_string}
use simple_ntpd.Common.Text.Lines.{unlines, contains}
use simple_ntpd.Logger.Files.{FileSystem, put, exists, contents_of}
use simple_ntpd.Server.{NtpServer, NtpServerStats}

-- The lines of the state file.
abbrev pub state_lines : NtpServerStats → List Bytes
state_lines stats =
    codes "{"
    ∷ (codes "  \"total_requests\": " ++ (to_string stats.total_requests ++ codes ","))
    ∷ (codes "  \"total_errors\": " ++ (to_string stats.total_errors ++ codes ","))
    ∷ (codes "  \"total_connections\": " ++ (to_string stats.total_connections ++ []))
    ∷ codes "}"
    ∷ []

abbrev pub has_no_state_file : NtpServer → Bool
has_no_state_file s = not s.config.enable_state_persistence || is_empty s.config.state_file

-- `persistState`; `opens` tells whether the file can be opened for writing.
unfoldable pub persist_state : Bool → NtpServer → FileSystem → FileSystem
persist_state opens s files =
    if has_no_state_file s
    then files
    else if not opens
    then files
    else put s.config.state_file (some (unlines (state_lines s.stats))) files

-- The message of `loadState`, if it logs one.
unfoldable pub load_state : NtpServer → FileSystem → Option Bytes
load_state s files = if has_no_state_file s then none else elim (files s.config.state_file) [
  | none ↦ none
  | some content ↦
      if contains (codes "total_requests") content
      then some (codes "Loaded persisted state from " ++ s.config.state_file)
      else none
]

-- `backupConfig`. The configuration file is opened first and read last; the backup is cut to
-- nothing between the two, when it is opened, and `opens` tells whether it can be.
unfoldable pub backup_config : Bool → NtpServer → FileSystem → FileSystem
backup_config opens s files =
    let source = s.config.last_config_file in
    let backup = s.config.backup_config_file in
    let truncated = if opens then put backup (some []) files else files in
    if is_empty backup || is_empty source
    then files
    else if not (exists source files) || not opens
    then truncated
    else put backup (some (contents_of (truncated source))) truncated

-- What `stop` does to the files, behind the end of the threads.
unfoldable pub stop_files : Bool → Bool → NtpServer → FileSystem → FileSystem
stop_files state_opens backup_opens s files =
    if not s.running
    then files
    else backup_config backup_opens s (persist_state state_opens s files)
