-- ===== src/Server/State/Persisted.antt =====
-- The state file (src/simple-ntpd/core/server.cpp): what a reader finds in it.
use simple_ntpd.Common.{
  ℕ, ◌^◌, ◌<◌, ◌≡◌, ◌≢◌, refl, ap, ◌∙◌, true, false, Option, none, some, List, [], ◌++◌, All,
  if-false,
}
use simple_ntpd.Common.Text.{Bytes, codes, stoull, split_on}
use simple_ntpd.Common.Text.Laws.{Avoids}
use simple_ntpd.Common.Text.Lines.{
  unlines, split_on-unlines, find_behind, behind_prefix, contains, lacks, lacks-Avoids,
  number_line-Avoids,
}
use simple_ntpd.Common.Text.Digits.{stoull-to_string}
use simple_ntpd.Logger.Files.{FileSystem, put}
use simple_ntpd.Logger.Rotation.{put-same, put-other}
use simple_ntpd.Server.{NtpServer, NtpServerStats}
use simple_ntpd.Server.State.{state_lines, has_no_state_file, persist_state, load_state}

-- The number behind `  "name": ` in the first line that begins so.
unfoldable pub read_in_lines : Bytes → List Bytes → Option ℕ
read_in_lines name ls = elim (find_behind (codes "  \"" ++ name ++ codes "\": ") ls) [
  | none ↦ none
  | some rest ↦ stoull rest
]

unfoldable pub read_count : Bytes → Bytes → Option ℕ
read_count name text = read_in_lines name (split_on 10 text)

state_lines-Avoids : (stats : NtpServerStats) → All (Avoids 10) (state_lines stats)
unfolding lacks
state_lines-Avoids stats = (
  lacks-Avoids 10 (codes "{") refl,
  (
    number_line-Avoids (codes "  \"total_requests\": ") stats.total_requests (codes ",") refl refl,
    (
      number_line-Avoids (codes "  \"total_errors\": ") stats.total_errors (codes ",") refl refl,
      (
        number_line-Avoids (codes "  \"total_connections\": ") stats.total_connections [] refl refl,
        (lacks-Avoids 10 (codes "}") refl, tt),
      ),
    ),
  ),
)

-- The three counters fit their 64 bits.
abbrev pub AreWords : NtpServerStats → Type 0
AreWords stats =
    (stats.total_requests < 2 ^ 64)
    × (stats.total_errors < 2 ^ 64)
    × (stats.total_connections < 2 ^ 64)

-- What a text tells of the three counters.
abbrev pub Tells : Bytes → NtpServerStats → Type 0
Tells text stats =
    (read_count (codes "total_requests") text ≡ some stats.total_requests)
    × (read_count (codes "total_errors") text ≡ some stats.total_errors)
    × (read_count (codes "total_connections") text ≡ some stats.total_connections)

state_text-Tells :
    (stats : NtpServerStats) → AreWords stats → Tells (unlines (state_lines stats)) stats
unfolding read_count read_in_lines find_behind behind_prefix
state_text-Tells stats (requests, errors, connections) = (
  ap (read_in_lines (codes "total_requests")) written
      ∙ stoull-to_string stats.total_requests (codes ",") requests refl,
  ap (read_in_lines (codes "total_errors")) written
      ∙ stoull-to_string stats.total_errors (codes ",") errors refl,
  ap (read_in_lines (codes "total_connections")) written
      ∙ stoull-to_string stats.total_connections [] connections tt,
)
  where
    written : split_on 10 (unlines (state_lines stats)) ≡ state_lines stats
    written = split_on-unlines (state_lines stats) (state_lines-Avoids stats)

-- The state file is configured.
abbrev pub Persists : NtpServer → Type 0
Persists s = has_no_state_file s ≡ false

persist_state-put :
    (s : NtpServer) (files : FileSystem)
    → Persists s
    → persist_state true s files
      ≡ put s.config.state_file (some (unlines (state_lines s.stats))) files
unfolding persist_state
persist_state-put s files h = if-false (has_no_state_file s) _ _ h

load_state-found :
    (s : NtpServer) (files : FileSystem) (text : Bytes)
    → Persists s
    → files s.config.state_file ≡ some text
    → contains (codes "total_requests") text ≡ true
    → load_state s files ≡ some (codes "Loaded persisted state from " ++ s.config.state_file)
unfolding load_state
load_state-found s files text h there found =
    if-false (has_no_state_file s) _ _ h ∙ rw (there, found) refl

state_text-contains :
    (stats : NtpServerStats)
    → contains (codes "total_requests") (unlines (state_lines stats)) ≡ true
unfolding contains unlines behind_prefix
state_text-contains stats = refl

-- If the state is to be kept and the file can be opened, the file that is written tells the three
-- counters, each below 2 ^ 64, to a reader, the next start logs that it loaded the state, and
-- every other file is as it was.
pub persist_state-Tells :
    (s : NtpServer) (files : FileSystem)
    → Persists s
    → AreWords s.stats
    → let after = persist_state true s files in
      (text : Bytes) × (after s.config.state_file ≡ some text)
      × Tells text s.stats
      × (load_state s after ≡ some (codes "Loaded persisted state from " ++ s.config.state_file))
      × ((p : Bytes) → p ≢ s.config.state_file → after p ≡ files p)
persist_state-Tells s files h words = (
  text,
  ap (λ (f : FileSystem). f path) written ∙ put-same path (some text) files,
  state_text-Tells s.stats words,
  loaded (persist_state true s files)
      (ap (λ (f : FileSystem). f path) written ∙ put-same path (some text) files),
  λ p other. ap (λ (f : FileSystem). f p) written ∙ put-other path (some text) files p other,
)
  where
    path : Bytes
    path = s.config.state_file

    text : Bytes
    text = unlines (state_lines s.stats)

    written : persist_state true s files ≡ put path (some text) files
    written = persist_state-put s files h

    loaded :
        (after : FileSystem)
        → after path ≡ some text
        → load_state s after ≡ some (codes "Loaded persisted state from " ++ path)
    loaded after there = load_state-found s after text h there (state_text-contains s.stats)
