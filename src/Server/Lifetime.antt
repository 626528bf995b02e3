-- ===== src/Server/Lifetime.antt =====
-- The server over a run: packets, cleanups, synchronisations, restarts of the socket, reloads of the
-- configuration, starts and stops in any order.
use simple_ntpd.Common.{
  true, All, ℕ, ◌+◌, ◌%◌, ◌^◌, ◌≡◌, inl, inr, refl, sym, subst, ap, ◌∙◌, Option, some, List, length,
}
use simple_ntpd.Common.Int.{ℤ}
use simple_ntpd.Common.Text.{Bytes}
use simple_ntpd.Common.Result.{ok}
use simple_ntpd.Common.Map.{lookup, bytes_eq}
use simple_ntpd.Config.{NtpConfig, AuthAlgorithm}
use simple_ntpd.Connection.{NtpConnection}
use simple_ntpd.Upstream.{SyncState, Network, sync_once}
use simple_ntpd.Server.{NtpServer, NtpServerStats, new_server}
use simple_ntpd.Server.Connections.{cleanup_connections}
use simple_ntpd.Server.Connections.Registry.{IsRegistry, cleanup_connections_idle}
use simple_ntpd.Server.Lifecycle.{SocketAnswers, start, stop}
use simple_ntpd.Server.Lifecycle.Startup.{start-table, stop-table}
use simple_ntpd.Server.Receive.{state_of, restart}
use simple_ntpd.Server.Receive.Restart.{restart-table}
use simple_ntpd.Server.Reload.{reload_config}
use simple_ntpd.Server.Reload.Outcome.{reload-table}
use simple_ntpd.Logger.{Logger}
use simple_ntpd.Server.Process.{Arrival, process_packet}
use simple_ntpd.Server.Process.Accounting.{counters, Counted, process_packet-Counted}
use simple_ntpd.Server.Process.Table.{process_packet-Passes}

module _ (digest : AuthAlgorithm → Bytes → Option Bytes) (inet_pton : Bytes → Option ℕ) where
  -- What the workers, the synchronisation thread and the program do to the state.
  pub data Step : NtpServer → NtpServer → Type 0 where
    packet :
        {s : NtpServer} (a : Arrival) (r : NtpServer × Option Bytes)
        → process_packet digest inet_pton a s ≡ ok r
        → Step s r.0
    cleaned : {s : NtpServer} → Step s (cleanup_connections s)
    started : {s : NtpServer} (answers : SocketAnswers) → Step s (start answers s).0
    stopped : {s : NtpServer} → Step s (stop s)
    restarted : {s : NtpServer} (answers : SocketAnswers) → Step s (state_of (restart answers s))
    reloaded :
        {s : NtpServer} (getenv file : Bytes → Option Bytes) (l : Logger)
        → Step s (reload_config getenv file l s).0
    synchronised :
        {s : NtpServer} (sync : SyncState) (servers : List (Bytes × Network)) (now : ℤ)
        → s.upstream_sync ≡ some sync
        → Step s (record s { upstream_sync = some (sync_once servers now sync).0 })

  pub data Run : NtpServer → NtpServer → Type 0 where
    done : {s : NtpServer} → Run s s
    then_ : {s t u : NtpServer} → Run s t → Step t u → Run s u

  -- One run and then another.
  pub Run-trans : {s t u : NtpServer} → Run s t → Run t u → Run s u
  Run-trans first done = first
  Run-trans first (then_ more step) = then_ (Run-trans first more) step

  -- What holds at every moment.
  pub record IsSound (s : NtpServer) : Type 0 where
    pub registry : IsRegistry s
    pub answered : s.stats.total_requests ≡ s.stats.total_responses

  -- A client of `s` is still one of `t`.
  abbrev pub Remembers : NtpServer → NtpServer → Type 0
  Remembers s t =
      (key : Bytes) (c : NtpConnection)
      → lookup key s.active_connections ≡ some c
      → (d : NtpConnection) × (lookup key t.active_connections ≡ some d)

  new_server-IsSound : (config : NtpConfig) → IsSound (new_server config)
  new_server-IsSound config = record {
    registry = record { all_active = tt; counted = refl };
    answered = refl;
  }

  packet_answered :
      (s : NtpServer) (a : Arrival) (r : NtpServer × Option Bytes)
      → s.stats.total_requests ≡ s.stats.total_responses
      → Counted (length a.buffer) (counters s) r
      → r.0.stats.total_requests ≡ r.0.stats.total_responses
  packet_answered s a r e (inl (silent, k)) =
      ap (λ k'. k'.requests) k ∙ (e ∙ ap (λ k'. k'.responses) (sym k))
  packet_answered s a r e (inr (d, sent, k)) =
      ap (λ k'. k'.requests) k
      ∙ (ap (λ (n : ℕ). (n + 1) % 2 ^ 64) e ∙ ap (λ k'. k'.responses) (sym k))

  kept :
      (s t : NtpServer)
      → t.active_connections ≡ s.active_connections
      → t.stats ≡ s.stats
      → IsSound s
      → IsSound t × Remembers s t
  kept s t same_table same_stats w = (
    record {
      registry = record {
        all_active =
            subst
              (λ (m : List (Bytes × NtpConnection)).
                All (λ (e : Bytes × NtpConnection). e.1.active ≡ true) m)
              (sym same_table) w.registry.all_active;
        counted =
            ap (λ (k : NtpServerStats). k.active_connections) same_stats
            ∙ (w.registry.counted
                ∙ ap (λ (m : List (Bytes × NtpConnection)). length m % 2 ^ 64) (sym same_table));
      };
      answered =
          ap (λ (k : NtpServerStats). k.total_requests) same_stats
          ∙ (w.answered ∙ ap (λ (k : NtpServerStats). k.total_responses) (sym same_stats));
    },
    λ key c e. (c, ap (λ (m : List (Bytes × NtpConnection)). lookup key m) same_table ∙ e),
  )

  Step-IsSound : {s t : NtpServer} → Step s t → IsSound s → IsSound t × Remembers s t
  Step-IsSound {s} (packet a r h) w =
      let p = process_packet-Passes digest inet_pton a s r w.registry h in
      (
        record {
          registry = p.registry;
          answered =
              packet_answered s a r w.answered (process_packet-Counted digest inet_pton a s r h);
        },
        p.grows.stays,
      )
  Step-IsSound {s} cleaned w =
      subst (λ t. IsSound t × Remembers s t) (sym (cleanup_connections_idle s w.registry))
        (w, λ key c e. (c, e))
  Step-IsSound {s} (started answers) w =
      let (same_table, same_stats) = start-table answers s in kept s _ same_table same_stats w
  Step-IsSound {s} stopped w =
      let (same_table, same_stats) = stop-table s w.registry in kept s _ same_table same_stats w
  Step-IsSound {s} (restarted answers) w =
      let (same_table, same_stats) = restart-table answers s in kept s _ same_table same_stats w
  Step-IsSound {s} (reloaded getenv file l) w =
      let (same_table, same_stats) = reload-table getenv file l s in
      kept s _ same_table same_stats w
  Step-IsSound {s} (synchronised sync servers now e) w = (
    record {
      registry = record { all_active = w.registry.all_active; counted = w.registry.counted };
      answered = w.answered;
    },
    λ key c e'. (c, e'),
  )

  Run-IsSound : {s t : NtpServer} → Run s t → IsSound s → IsSound t × Remembers s t
  Run-IsSound done w = (w, λ key c e. (c, e))
  Run-IsSound (then_ run step) w =
      let (v, before) = Run-IsSound run w in
      let (u, last) = Step-IsSound step v in
      (u, λ key c e. let (d, e') = before key c e in last key d e')

  -- In every state that a new server reaches by packets, cleanups, synchronisations, restarts of
  -- the socket, reloads, starts and stops, all connections of the table are active, the counter
  -- of active connections is the size of the table modulo 2 ^ 64, and as many responses as
  -- requests are counted.
  pub reachable-IsSound :
      (config : NtpConfig) (s : NtpServer) → Run (new_server config) s → IsSound s
  reachable-IsSound config s run = (Run-IsSound run (new_server-IsSound config)).0

  -- From a reachable state on, whatever packets, cleanups, synchronisations, restarts of the
  -- socket, reloads, starts and stops follow, every client of the table stays in it, and a
  -- cleanup changes nothing.
  pub reachable-Remembers :
      (config : NtpConfig) (s t : NtpServer)
      → Run (new_server config) s
      → Run s t
      → Remembers s t × (cleanup_connections t ≡ t)
  reachable-Remembers config s t before after =
      let (w, stays) = Run-IsSound after (reachable-IsSound config s before) in
      (stays, cleanup_connections_idle t w.registry)
