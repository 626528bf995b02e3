-- ===== src/Lib.antt =====
-- simple-ntpd: the NTP daemon of this repository, from the packet on the wire to the server's answer.
--
-- The program. A datagram that reaches the server's socket goes through `NtpServer::processPacket`
-- (src/simple-ntpd/core/server.cpp): the access lists and two per-client limits come first, then the
-- connection object of the client admits the packet (`NtpConnection::handlePacket`), a response is
-- made and sent, and the statistics are kept. In parallel `UpstreamSyncManager` queries upstream
-- servers and keeps the best clock offset, which moves the times of the responses. `NtpConfig`
-- holds the settings of all of them.
--
-- The files.
--   Common      helpers: Boolean tests, lists, signed integers over the native numbers, text as a
--               list of bytes, calls that may throw, maps as association lists.
--   Platform    constants and modes of include/simple-ntpd/utils/platform.hpp.
--   Timestamp   `NtpTimestamp` with `fromSystemTime` and `toSystemTime` of core/packet.cpp.
--   Exchange    `calculateOffset` and `calculateRoundTripDelay` of core/packet.cpp.
--   Packet      `NtpPacket`; Packet.Wire is `parseFromData` and `serializeToData`, Packet.Validation
--               is `validateDetailed` and `isValid`, Packet.Response makes requests and responses.
--   Config      `NtpConfig` with its defaults (config/config.cpp): Config.Validate is
--               `validateDetailed`, Config.Fields the assignments, Config.Options and
--               Config.CommandLine `parseCommandLineArg`, Config.File `parseConfigFile`,
--               Config.Environment `applyEnvironmentOverrides`; Config.Keys, Config.Parser and
--               Config.Factory are config/parser.cpp.
--   Logger      `Logger` of utils/logger.cpp, with the files as a function from paths.
--   Net         `isIpInCidr` of utils/net.cpp.
--   Connection  `NtpConnection` of core/connection.cpp: `handlePacket`, `validateAuthentication`,
--               the life of a connection; Connection.Socket is its socket operations and loop.
--   Upstream    `queryUpstreamServer`, `syncOnce` and `effectiveStratum` of core/upstream_sync.cpp;
--               Upstream.Manager is `start`, `stop` and `syncLoop`.
--   Server      `NtpServer` of core/server.cpp: Server.Security has the access lists and limits,
--               Server.Connections the table of connections, Server.Upstreams the choice of an
--               upstream and of the stratum, Server.Process is `processPacket`, Server.Lifecycle is
--               `start` and `stop`, Server.Receive is `processIncomingPackets`, Server.Reload
--               `reloadConfig`, Server.Watch `configWatcherLoop`, Server.State the state file and
--               the backup, Server.Reports `listConnections` and `getStatus` with
--               `exportPrometheusMetrics` and `runHealthChecks` below it, Server.Lifetime is the run
--               of a server as a step relation, and Server.Workers the worker threads and their
--               flag in every order.
--   Program     the options of main/production.cpp; Program.Session is `main` behind the start, with
--               the signals and the one-shot commands, Program.Main `main` from its arguments on.
--   Service     deployment/windows/simple-ntpd-service.cpp: Service is `ReportSvcStatus` and
--               `_tmain`, Service.Threads the service, handler and worker threads as a step
--               relation, Service.Setup `InstallService` and `UninstallService`.
--   Peers       one daemon that queries another: the query of the one and `processPacket` of the other,
--               with the datagrams between them and the readings of the two clocks.
-- The function names are those of the source in lower case with underscores. The modules below each
-- of these hold its proofs, named for what they prove, and its Runs and Examples the examples.
--
-- How state is passed. A function that changes an object takes the object and returns the new one.
-- An object behind a pointer in the connection table is written back under its key
-- (`put_connection`). A connection holds the configuration of the server that made it; the server
-- changes only the stratum there, which no connection reads, and behind a reload the connections of
-- the table hold the former configuration. A call that may end in a C++ exception returns a `Result`.
--
-- Numbers. A `uint64_t` counter wraps at 2 ^ 64, the `uint32_t` counts of the limits at 2 ^ 32, the
-- conversions of timestamps in both widths as written. Signed intermediate results are integers.
-- Fuel stands for the 20 digits of `to_string`, which an unsigned 64-bit number has at most, and for
-- the turns of the receive loop.
--
-- Parameters. The digest functions of OpenSSL, `inet_pton`, the resolver and the sockets of a query,
-- the random draw, the clocks, the result of `sendto`, the events of the receive loop, `getenv` and
-- the contents of files are arguments; so are the readings of the flags and of the file's time in
-- the loops of the threads, the signals, what the Windows calls answer, and, in the reports, the
-- results of `getrusage` and of the arithmetic on `double`. A `Manager` stands for the service
-- control manager, which, as the documentation of `ControlService` says, delivers the stop control
-- only to a service that accepts it, and no other before the service has started. The entries of
-- `authentication_keys`, a hash map whose order of iteration the language leaves open, stand in the
-- order of their insertion.
--
-- Not modelled: the locks and the interleavings of two threads inside an operation of the server,
-- since each function is what one thread does with no other between; `toString` of the configuration
-- and the descriptions of packets and connections, which only print; the usage of the program, and
-- main/enterprise.cpp and main/datacenter.cpp, which print and end; in the Windows service the start
-- of a thread always succeeds.
pub mod Common
pub mod Platform
pub mod Timestamp
pub mod Exchange
pub mod Packet
pub mod Config
pub mod Logger
pub mod Net
pub mod Connection
pub mod Upstream
pub mod Server
pub mod Program
pub mod Service
pub mod Peers
