-- ===== src/Connection/Socket/Loop.antt =====
-- What the connection's own loop counts, and what a stopped connection can do.
use simple_ntpd.Common.{
  ℕ, ◌+◌, ◌%◌, ◌^◌, ◌≡◌, ◌↔◌, inl, inr, refl, ap, ◌∙◌, arith, Bool, true, false, not, Option, none,
  some, List, [], ◌∷◌, if◌then◌else◌, take, Bool-cases, if-both,
}
use simple_ntpd.Common.Int.{ℤ, pos}
use simple_ntpd.Common.Text.{Bytes}
use simple_ntpd.Config.{AuthAlgorithm}
use simple_ntpd.Packet.{NtpPacket}
use simple_ntpd.Packet.Wire.RoundTrip.{length-serialize_to_data}
use simple_ntpd.Connection.{
  NtpConnection, start, stop, count_request, record_request, handle_packet,
}
use simple_ntpd.Connection.Admission.{handle_packet_accepts, handle_packet_rejects}
use simple_ntpd.Connection.Socket.{
  unusable, whole, write_to_socket, send_response, read_from_socket, handle_error, on_read,
  connection_loop,
}

-- The turns up to the first that reads nothing.
unfoldable pub run_length : List (ℕ × Option Bytes) → ℕ
run_length [] = 0
run_length ((minute, none) ∷ turns) = 0
run_length ((minute, some []) ∷ turns) = 0
run_length ((minute, some (b ∷ bytes)) ∷ turns) = 1 + run_length turns

-- Accepted packets and errors together.
abbrev pub seen : NtpConnection → ℕ
seen c = c.stats.packets_received + c.stats.errors

-- One turn of the loop on a packet.
record Turned (c d : NtpConnection) : Type 0 where
  still_usable : unusable d ≡ unusable c
  one_more : seen d % 2 ^ 64 ≡ (seen c + 1) % 2 ^ 64

after_turn : NtpConnection × Bool → NtpConnection
after_turn (c, handled) = if handled then c else handle_error c

turned :
    (digest : AuthAlgorithm → Bytes → Option Bytes) (minute : ℕ) (buffer : Bytes)
    (c : NtpConnection)
    → Turned c (after_turn (handle_packet digest minute buffer c))
unfolding after_turn handle_error count_request
turned digest minute buffer c = elim (Bool-cases (handle_packet digest minute buffer c).1) [
  | inl yes' ↦
      rw (yes', handle_packet_accepts digest minute buffer c yes')
        (if-both (λ d. Turned c (record_request buffer d)) c.config.enable_rate_limiting
          (count_request minute c) c (record { still_usable = refl; one_more = omega arith })
          (record { still_usable = refl; one_more = omega arith }))
  | inr no' ↦ elim (handle_packet_rejects digest minute buffer c no') [
    | inl kept ↦ rw (no', kept) (record { still_usable = refl; one_more = omega arith })
    | inr counted ↦ rw (no', counted) (record { still_usable = refl; one_more = omega arith })
  ]
]

turn_seen :
    (digest : AuthAlgorithm → Bytes → Option Bytes) (minute n : ℕ) (c : NtpConnection)
    (next : NtpConnection → NtpConnection) (b : ℕ) (bytes : Bytes)
    → unusable c ≡ false
    → ((d : NtpConnection) → unusable d ≡ false → seen (next d) % 2 ^ 64 ≡ (seen d + n) % 2 ^ 64)
    → seen (on_read digest minute next c (some (b ∷ bytes))) % 2 ^ 64 ≡ (seen c + (1 + n)) % 2 ^ 64
unfolding on_read after_turn
turn_seen digest minute n c next b bytes usable rest =
    let t = turned digest minute (b ∷ bytes) c in
    let d = after_turn (handle_packet digest minute (b ∷ bytes) c) in
    let later = rest d (t.still_usable ∙ usable) in
    let step = t.one_more in later ∙ omega (arith, step)

usable_active : (c : NtpConnection) → unusable c ≡ false → c.active ≡ true
usable_active c h = ground arith

-- What `recv` gives, cut to the size of a packet.
abbrev cut : Option Bytes → Option Bytes
cut none = none
cut (some bytes) = some (take 48 bytes)

loop_turn :
    (digest : AuthAlgorithm → Bytes → Option Bytes) (minute : ℕ) (received : Option Bytes)
    (turns : List (ℕ × Option Bytes)) (c : NtpConnection)
    → unusable c ≡ false
    → connection_loop digest ((minute, received) ∷ turns) c
      ≡ on_read digest minute (λ d. connection_loop digest turns d) c (cut received)
unfolding connection_loop read_from_socket
loop_turn digest minute received turns c usable =
    let next : NtpConnection → NtpConnection = λ d. connection_loop digest turns d in
    let read = read_from_socket 48 received c in
    ap (λ a. if not a then c else on_read digest minute next c read) (usable_active c usable)
    ∙ ap (on_read digest minute next c) (
        ap
          (λ u.
            if u then none else elim received [ none ↦ none | some bytes ↦ some (take 48 bytes) ])
          usable
        ∙ same received)
  where
    same : (r : Option Bytes) → (elim r [ none ↦ none | some bytes ↦ some (take 48 bytes) ]) ≡ cut r
    same none = refl
    same (some bytes) = refl

-- On an active connection with a socket the loop adds to the accepted packets and the errors
-- together, modulo 2 ^ 64, as many as reads give at least one byte before the first that does
-- not.
connection_loop-seen :
    (digest : AuthAlgorithm → Bytes → Option Bytes) (turns : List (ℕ × Option Bytes))
    (c : NtpConnection)
    → unusable c ≡ false
    → seen (connection_loop digest turns c) % 2 ^ 64 ≡ (seen c + run_length turns) % 2 ^ 64
unfolding connection_loop run_length on_read
connection_loop-seen digest [] c usable = omega arith
connection_loop-seen digest ((minute, none) ∷ turns) c usable =
    ap (λ d. seen d % 2 ^ 64) (loop_turn digest minute none turns c usable) ∙ omega arith
connection_loop-seen digest ((minute, some []) ∷ turns) c usable =
    ap (λ d. seen d % 2 ^ 64) (loop_turn digest minute (some []) turns c usable) ∙ omega arith
connection_loop-seen digest ((minute, some (b ∷ bytes)) ∷ turns) c usable =
    ap (λ d. seen d % 2 ^ 64) (loop_turn digest minute (some (b ∷ bytes)) turns c usable)
    ∙ turn_seen digest minute (run_length turns) c (λ d. connection_loop digest turns d) b
        (take 47 bytes) usable (λ d u. connection_loop-seen digest turns d u)

-- A connection that was active, is stopped and is started again is active, but writes nothing and
-- reads nothing, since its socket is gone.
restarted_is_deaf :
    (c : NtpConnection) (sent : ℤ) (buffer : Bytes) (max_size : ℕ) (received : Option Bytes)
    → c.active ≡ true
    → ((start (stop c)).active ≡ true)
      × (write_to_socket sent buffer (start (stop c)) ≡ false)
      × (read_from_socket max_size received (start (stop c)) ≡ none)
unfolding start stop write_to_socket read_from_socket
restarted_is_deaf c sent buffer max_size received open_ = ground arith

-- A response is sent exactly if the connection is active and has a socket and send takes all 48
-- bytes, and otherwise the connection is as it was.
send_response_iff :
    (sent : ℤ) (packet : NtpPacket) (c : NtpConnection)
    → (((send_response sent packet c).1 ≡ true) ↔ ((unusable c ≡ false) × (sent ≡ pos 48)))
      × ((send_response sent packet c).1 ≡ false → (send_response sent packet c).0 ≡ c)
unfolding send_response write_to_socket whole
send_response_iff sent packet c = ground (arith, length-serialize_to_data packet)
