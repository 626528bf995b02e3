-- ===== src/Server/Connections.antt =====
-- `getOrCreateConnection` and `cleanupConnections` of src/simple-ntpd/core/server.cpp.
pub mod Registry
use simple_ntpd.Common.{
  ℕ, ◌+◌, ◌-◌, ◌%◌, ◌^◌, Bool, true, false, Option, none, some, List, [], ◌∷◌, ◌++◌, if◌then◌else◌,
  length,
}
use simple_ntpd.Common.Text.{Bytes, codes, to_string}
use simple_ntpd.Common.Result.{Result, ok, exception, ◌>>=◌}
use simple_ntpd.Common.Map.{lookup, insert, bytes_eq}
use simple_ntpd.Connection.{NtpConnection, new_connection, set_trusted, add_u64}
use simple_ntpd.Server.{NtpServer, NtpServerStats}
use simple_ntpd.Server.Security.{is_client_allowed}

-- client_ip + ":" + std::to_string(client_port)
abbrev pub client_key : Bytes → ℕ → Bytes
client_key ip port = ip ++ (b':' ∷ to_string port)

-- A new connection is entered in the map and counted.
abbrev pub add_connection : Bytes → NtpConnection → NtpServer → NtpServer
add_connection key connection s = record s {
  active_connections = insert key connection s.active_connections;
  stats = record s.stats {
    total_connections = add_u64 s.stats.total_connections 1;
    active_connections = add_u64 s.stats.active_connections 1;
  };
}

module _ (inet_pton : Bytes → Option ℕ) where
  unfoldable pub create_connection : Bytes → Bytes → NtpServer → Result (NtpServer × NtpConnection)
  create_connection key ip s = do
    allowed ← is_client_allowed inet_pton s.config ip
    let connection = set_trusted allowed (new_connection none ip s.config)
    ok (add_connection key connection s, connection)

  unfoldable pub found_or_created :
      Bytes → Bytes → NtpServer → Option NtpConnection → Result (NtpServer × NtpConnection)
  found_or_created key ip s (some connection) = ok (s, connection)
  found_or_created key ip s none = create_connection key ip s

  unfoldable pub get_or_create_connection :
      Bytes → ℕ → NtpServer → Result (NtpServer × NtpConnection)
  unfolding found_or_created create_connection
  get_or_create_connection ip port s =
      found_or_created (client_key ip port) ip s (lookup (client_key ip port) s.active_connections)

-- The map entry of a connection that an operation has changed through its pointer.
abbrev pub put_connection : Bytes → NtpConnection → NtpServer → NtpServer
put_connection key connection s = record s {
  active_connections = insert key connection s.active_connections;
}

-- The loop of `cleanupConnections` over the map and the counter `stats_.active_connections`.
unfoldable pub cleanup : List (Bytes × NtpConnection) → ℕ → List (Bytes × NtpConnection) × ℕ
cleanup [] count = ([], count)
cleanup ((key, connection) ∷ rest) count =
    let (kept, count') =
      cleanup rest (if connection.active then count else (count + 2 ^ 64 - 1) % 2 ^ 64) in
    ((if connection.active then (key, connection) ∷ kept else kept), count')

unfoldable pub cleanup_connections : NtpServer → NtpServer
unfolding cleanup
cleanup_connections s =
    let (kept, count) = cleanup s.active_connections s.stats.active_connections in
    record s { active_connections = kept; stats = record s.stats { active_connections = count } }
