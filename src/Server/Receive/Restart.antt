-- ===== src/Server/Receive/Restart.antt =====
-- A restart of the socket (src/simple-ntpd/core/server.cpp) and what it leaves alone.
use simple_ntpd.Common.{ℕ, ◌+◌, ◌%◌, ◌^◌, ◌≡◌, refl, ◌&&◌, Option, none, some, if-both, ltb}
use simple_ntpd.Server.{NtpServer}
use simple_ntpd.Server.Lifecycle.{SocketAnswers, close_socket}
use simple_ntpd.Server.Receive.{Turn, leave, again, state_of, reopen, restart}

-- The table and the statistics are as they were.
abbrev IsQuiet : NtpServer → Turn → Type 0
IsQuiet s t =
    ((state_of t).active_connections ≡ s.active_connections) × ((state_of t).stats ≡ s.stats)

reopen-IsQuiet :
    (answers : SocketAnswers) (o : Option ℕ) (s : NtpServer) → IsQuiet s (reopen answers o s)
unfolding reopen
reopen-IsQuiet answers none s = (refl, refl)
reopen-IsQuiet answers (some fd) s =
    if-both (IsQuiet s) (answers.address_known && answers.bound) (again _ none) (leave _)
      (refl, refl) (refl, refl)

pub restart-table : (answers : SocketAnswers) (s : NtpServer) → IsQuiet s (restart answers s)
unfolding restart
restart-table answers s =
    if-both (IsQuiet s)
      (s.config.enable_self_healing && ltb s.restart_count s.config.service_restart_limit) _ _
      (reopen-IsQuiet answers answers.opened
        (close_socket (record s { restart_count = (s.restart_count + 1) % 2 ^ 32 })))
      (refl, refl)
