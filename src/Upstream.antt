-- ===== src/Upstream.antt =====
-- `queryUpstreamServer` and `UpstreamSyncManager` of include/simple-ntpd/core/upstream_sync.hpp and
-- src/simple-ntpd/core/upstream_sync.cpp. What the resolver, the socket and the clocks answer
-- during one query is a `Network`.
pub mod Query
pub mod Best
pub mod Manager
mod Runs
use simple_ntpd.Common.{
  ℕ, suc, ◌+◌, ◌<◌, min, Bool, true, false, not, ◌&&◌, ◌||◌, Option, none, some, List, [], ◌∷◌,
  ◌==◌, ltb, if◌then◌else◌, length,
}
use simple_ntpd.Common.Int.{ℤ, pos, negsuc, ltb_ℤ}
use simple_ntpd.Common.Text.{Bytes}
use simple_ntpd.Platform.{ntp_packet_size, mode_byte, server}
use simple_ntpd.Timestamp.{NtpTimestamp, from_system_time}
use simple_ntpd.Exchange.{calculate_offset, calculate_round_trip_delay}
use simple_ntpd.Packet.{NtpPacket}
use simple_ntpd.Packet.Wire.{parse_from_data, serialize_to_data}
use simple_ntpd.Packet.Validation.{is_valid}
use simple_ntpd.Packet.Response.{create_client_request}

pub record UpstreamSyncResult : Type 0 where
  pub success : Bool
  pub server : Bytes
  pub offset_us : ℤ
  pub delay_us : ℤ
  pub stratum : ℕ

abbrev pub failed_result : Bytes → UpstreamSyncResult
failed_result host = record {
  success = false;
  server = host;
  offset_us = pos 0;
  delay_us = pos 0;
  stratum = 0;
}

-- An address of `getaddrinfo`, and what `sendto` to it returns.
pub record Address : Type 0 where
  pub is_inet : Bool
  pub sent : ℤ

pub record Network : Type 0 where
  pub addresses : Option (List Address)  -- `none` if the name is not resolved
  pub socket_opens : Bool
  pub received : Option Bytes  -- the datagram cut to 48 bytes, or `none` for an error
  pub request_time : ℤ  -- `system_clock::now()` in `createClientRequest`
  pub reply_time : ℤ  -- and in `NtpTimestamp::now()`

-- The loop over the addresses: true once one takes the whole request.
unfoldable pub send_any : ℕ → List Address → Bool
send_any size [] = false
send_any size (a ∷ rest) =
    let later = send_any size rest in
    if not a.is_inet then later else if is_size a.sent then true else later
  where
    is_size : ℤ → Bool
    is_size (pos n) = n == size
    is_size (negsuc n) = false

unfoldable pub accept_response :
    Bytes → NtpTimestamp → NtpTimestamp → Option NtpPacket → UpstreamSyncResult
accept_response host t1 t4 none = failed_result host
accept_response host t1 t4 (some response) =
    if not (is_valid response)
    then failed_result host
    else if not (response.mode == mode_byte server)
    then failed_result host
    else record {
      success = true;
      server = host;
      offset_us = calculate_offset t1 response.receive_ts response.transmit_ts t4;
      delay_us = calculate_round_trip_delay t1 response.receive_ts response.transmit_ts t4;
      stratum = response.stratum;
    }

receive_response : Bytes → NtpTimestamp → NtpTimestamp → Option Bytes → UpstreamSyncResult
receive_response host t1 t4 none = failed_result host
receive_response host t1 t4 (some buffer) =
    if ltb (length buffer) ntp_packet_size
    then failed_result host
    else accept_response host t1 t4 (parse_from_data buffer)

send_request : Bytes → Network → List Address → UpstreamSyncResult
send_request host net addresses =
    let request = create_client_request net.request_time in
    if not net.socket_opens
    then failed_result host
    else if not (send_any (length (serialize_to_data request)) addresses)
    then failed_result host
    else receive_response host request.transmit_ts (from_system_time net.reply_time) net.received

-- `queryUpstreamServer`
unfoldable pub query_upstream_server : Network → Bytes → UpstreamSyncResult
unfolding send_request receive_response
query_upstream_server net host = elim net.addresses [
  | none ↦ failed_result host
  | some addresses ↦ send_request host net addresses
]

-- What `syncOnce` has learnt; the fields of `UpstreamSyncManager` behind `state_mutex_`.
pub record SyncState : Type 0 where
  pub clock_offset_us : ℤ
  pub last_delay_us : ℤ
  pub upstream_stratum : ℕ
  pub synced_upstream : Bytes
  pub last_sync_time : ℤ
  pub synced : Bool

abbrev pub initial_sync : SyncState
initial_sync = record {
  clock_offset_us = pos 0;
  last_delay_us = pos 0;
  upstream_stratum = 0;
  synced_upstream = [];
  last_sync_time = pos 0;
  synced = false;
}

-- `attempt` takes the place of `best`.
unfoldable pub better : UpstreamSyncResult → UpstreamSyncResult → UpstreamSyncResult
better best attempt =
    if attempt.success && (not best.success || ltb_ℤ attempt.delay_us best.delay_us)
    then attempt
    else best

-- The loop of `syncOnce` over the configured servers; the network answers anew to each query.
unfoldable pub best_of : UpstreamSyncResult → List (Bytes × Network) → UpstreamSyncResult
best_of best [] = best
best_of best ((host, net) ∷ rest) = best_of (better best (query_upstream_server net host)) rest

-- The end of `syncOnce`: a success is recorded.
unfoldable pub adopt : ℤ → UpstreamSyncResult → SyncState → SyncState
adopt now best s =
    if best.success
    then record {
      clock_offset_us = best.offset_us;
      last_delay_us = best.delay_us;
      upstream_stratum = best.stratum;
      synced_upstream = best.server;
      last_sync_time = now;
      synced = true;
    }
    else s

-- `syncOnce` at time `now`: the new state and the result.
unfoldable pub sync_once : List (Bytes × Network) → ℤ → SyncState → SyncState × UpstreamSyncResult
unfolding adopt
sync_once servers now s = let best = best_of (failed_result []) servers in (adopt now best s, best)

-- `effectiveStratum`; `std::clamp` to 1 … 15 of a number above 0.
unfoldable pub effective_stratum : SyncState → ℕ → ℕ
effective_stratum s configured_stratum =
    if not s.synced || s.upstream_stratum == 0
    then configured_stratum
    else min (s.upstream_stratum + 1) 15
