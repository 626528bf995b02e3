-- ===== src/Server/Process/Malformed.antt =====
-- What a malformed entry of an access list does to the packets.
use simple_ntpd.Common.{ℕ, ◌+◌, ◌≡◌, ap, Bool, true, Option, none, some, drop, if◌then◌else◌}
use simple_ntpd.Common.Text.{Bytes, find, stoi}
use simple_ntpd.Common.Result.{Result, ok, exception, ◌>>=◌}
use simple_ntpd.Config.{AuthAlgorithm}
use simple_ntpd.Config.Validate.{validate}
use simple_ntpd.Net.Cidr.{unreadable_block}
use simple_ntpd.Server.{NtpServer, count_error}
use simple_ntpd.Server.Security.Acl.{spoil, unreadable_list}
use simple_ntpd.Server.Process.{Arrival, check_rate, process_packet}

-- If a denied block with a slash and no number behind it is put first in the list of a valid
-- configuration with the access lists on, the configuration is still valid, and processing any
-- packet ends in an exception.
pub malformed_block_throws :
    (digest : AuthAlgorithm → Bytes → Option Bytes) (inet_pton : Bytes → Option ℕ) (a : Arrival)
    (s : NtpServer) (block : Bytes) (slash : ℕ)
    → validate s.config ≡ true
    → find b'/' block ≡ some slash
    → stoi (drop (slash + 1) block) ≡ none
    → let spoilt = spoil block s.config in
      (validate spoilt ≡ true)
      × (process_packet digest inet_pton a (record s { config = spoilt }) ≡ exception)
unfolding process_packet validate
malformed_block_throws digest inet_pton a s block slash valid f n =
    let s' = record s { config = spoil block s.config } in
    let throws =
      unreadable_list inet_pton a.client_ip block s.config
        (unreadable_block inet_pton a.client_ip block slash f n) in
    (
      valid,
      ap
          (λ (r : Result Bool). r >>= λ allowed.
            if allowed then check_rate digest inet_pton a s' else ok (count_error s', none))
          throws,
    )
