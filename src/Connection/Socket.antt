-- ===== src/Connection/Socket.antt =====
-- `sendResponse`, `readFromSocket`, `writeToSocket`, `updateStats`, `handleError` and `connectionLoop`
-- of src/simple-ntpd/core/connection.cpp. What `send` and `recv` return are arguments.
pub mod Loop
use simple_ntpd.Common.{
  ℕ, ◌+◌, Bool, true, false, not, ◌||◌, Option, none, some, List, [], ◌∷◌, ◌==◌, if◌then◌else◌,
  length, take,
}
use simple_ntpd.Common.Int.{ℤ, pos, negsuc}
use simple_ntpd.Common.Text.{Bytes}
use simple_ntpd.Platform.{ntp_packet_size}
use simple_ntpd.Config.{AuthAlgorithm}
use simple_ntpd.Packet.{NtpPacket}
use simple_ntpd.Packet.Wire.{serialize_to_data}
use simple_ntpd.Connection.{NtpConnection, NtpConnectionStats, add_u64, handle_packet}

-- `!active_ || client_socket_ == INVALID_SOCKET`
abbrev pub no_socket : Option ℕ → Bool
no_socket none = true
no_socket (some fd) = false

abbrev pub unusable : NtpConnection → Bool
unusable c = not c.active || no_socket c.client_socket

whole : ℤ → ℕ → Bool
whole (pos n) size = n == size
whole (negsuc n) size = false

-- `bytes_sent` is what `send` returns.
unfoldable pub write_to_socket : ℤ → Bytes → NtpConnection → Bool
unfolding whole
write_to_socket bytes_sent buffer c = if unusable c then false else whole bytes_sent (length buffer)

unfoldable pub send_response : ℤ → NtpPacket → NtpConnection → NtpConnection × Bool
unfolding write_to_socket
send_response bytes_sent packet c =
    let buffer = serialize_to_data packet in
    if write_to_socket bytes_sent buffer c
    then (
      record c {
        stats = record c.stats {
          packets_sent = add_u64 c.stats.packets_sent 1;
          bytes_sent = add_u64 c.stats.bytes_sent (length buffer);
        };
      },
      true,
    )
    else (c, false)

-- The bytes read, at most `max_size`, or `none` for -1. `received` is what `recv` gives, with
-- `none` for an error.
unfoldable pub read_from_socket : ℕ → Option Bytes → NtpConnection → Option Bytes
read_from_socket max_size received c =
    if unusable c
    then none
    else elim received [ none ↦ none | some bytes ↦ some (take max_size bytes) ]

unfoldable pub update_stats : ℕ → ℕ → NtpConnection → NtpConnection
update_stats received_bytes sent_bytes c = record c {
  stats = record c.stats {
    bytes_received = add_u64 c.stats.bytes_received received_bytes;
    bytes_sent = add_u64 c.stats.bytes_sent sent_bytes;
  };
}

-- `stats_.errors++`, which `handleError` and the loop do.
unfoldable pub handle_error : NtpConnection → NtpConnection
handle_error c = record c { stats = record c.stats { errors = add_u64 c.stats.errors 1 } }

module _ (digest : AuthAlgorithm → Bytes → Option Bytes) where
  -- One turn of the loop behind the read; `next` is the rest of the loop.
  unfoldable pub on_read :
      ℕ → (NtpConnection → NtpConnection) → NtpConnection → Option Bytes → NtpConnection
  on_read minute next c none = c
  on_read minute next c (some []) = c
  on_read minute next c (some (b ∷ bytes)) =
      let (c', handled) = handle_packet digest minute (b ∷ bytes) c in
      next (if handled then c' else handle_error c')

  -- `connectionLoop` as long as `recv` answers: the minute of each turn and what it receives.
  unfoldable pub connection_loop : List (ℕ × Option Bytes) → NtpConnection → NtpConnection
  unfolding on_read
  connection_loop [] c = c
  connection_loop ((minute, received) ∷ turns) c =
      if not c.active
      then c
      else on_read minute (λ c'. connection_loop turns c') c
          (read_from_socket ntp_packet_size received c)
