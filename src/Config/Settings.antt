-- ===== src/Config/Settings.antt =====
-- What the readers of settings have in common: the kinds of setting, the search of a name, and the
-- assignments that test their value.
use simple_ntpd.Common.{
  ℕ, ◌^◌, Bool, false, ◌&&◌, ◌||◌, Option, none, some, List, [], ◌∷◌, leb, ◌==◌, if◌then◌else◌,
  is_empty,
}
use simple_ntpd.Common.Int.{ℤ, pos, negsuc, to_unsigned}
use simple_ntpd.Common.Text.{Bytes, codes, equal}
use simple_ntpd.Config.{NtpConfig, AuthAlgorithm, UpstreamSelectionAlgorithm, LogLevel}
use simple_ntpd.Config.Fields.{
  TextField, FlagField, SignedField, CountField, BoundedField, ListField, worker_threads,
  max_packet_size, set_bounded,
}

-- A branch of the chain over the keys, by what it does with the value.
pub data Setting : Type 0 where
  text : TextField → Setting
  flag : FlagField → Setting
  port stratum_value level_value auth_method selection : Setting
  signed : SignedField → Setting
  list : ListField → Setting
  count : CountField → Setting
  bounded : BoundedField → Setting

-- key == name1 || key == name2
unfoldable pub is_named : Bytes → List Bytes → Bool
is_named key [] = false
is_named key (name ∷ names) = equal key name || is_named key names

-- The first branch whose test holds.
unfoldable pub find_setting {ℓ} : {S : Type ℓ} → Bytes → List (List Bytes × S) → Option S
unfolding is_named
find_setting key [] = none
find_setting key ((names, s) ∷ rows) = if is_named key names then some s else find_setting key rows

abbrev pub set_port : ℤ → NtpConfig → NtpConfig
set_port n c = record c { listen_port = to_unsigned (2 ^ 16) n }

unfoldable pub set_stratum : ℤ → NtpConfig → NtpConfig
set_stratum (pos n) c = if leb n 15 then record c { stratum = n } else c
set_stratum (negsuc n) c = c

-- `static_cast<LogLevel>(n)`
unfoldable pub level_of : ℤ → LogLevel
level_of (pos n) =
    if n == 0
    then LogLevel.debug
    else if n == 1
    then LogLevel.info
    else if n == 2
    then LogLevel.warning
    else if n == 3
    then LogLevel.error
    else if n == 4
    then LogLevel.fatal
    else LogLevel.other (pos n)
level_of (negsuc n) = LogLevel.other (negsuc n)

unfoldable pub set_level : ℤ → NtpConfig → NtpConfig
unfolding level_of
set_level (pos n) c = if leb n 4 then record c { log_level = level_of (pos n) } else c
set_level (negsuc n) c = c

abbrev pub least : BoundedField → ℕ
least worker_threads = 1
least max_packet_size = 48

abbrev pub greatest : BoundedField → ℕ
greatest worker_threads = 64
greatest max_packet_size = 8192

unfoldable pub set_within : BoundedField → ℕ → NtpConfig → NtpConfig
set_within f n c = if leb (least f) n && leb n (greatest f) then set_bounded f n c else c

unfoldable pub algorithm_of : Bytes → AuthAlgorithm
algorithm_of name =
    if equal name (codes "md5")
    then AuthAlgorithm.md5
    else if equal name (codes "sha1")
    then AuthAlgorithm.sha1
    else if equal name (codes "sha256")
    then AuthAlgorithm.sha256
    else AuthAlgorithm.none

unfoldable pub selection_of : Bytes → UpstreamSelectionAlgorithm
selection_of name =
    if equal name (codes "random")
    then UpstreamSelectionAlgorithm.random
    else if equal name (codes "least_errors")
    then UpstreamSelectionAlgorithm.least_errors
    else UpstreamSelectionAlgorithm.round_robin

-- The pieces of a list that are not empty.
unfoldable pub nonempty : List Bytes → List Bytes
nonempty [] = []
nonempty (item ∷ items) = if is_empty item then nonempty items else item ∷ nonempty items
