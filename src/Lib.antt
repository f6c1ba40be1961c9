-- ===== src/Lib.antt =====
-- NetSee: the client measures its network against a probe and reports what the path exposes.
--
-- The probe (internal/probe) listens on HTTP, TLS, UDP and extra TCP ports. Each handler turns
-- what arrives into an observation and appends it to the session registry (internal/proto); the
-- client (internal/client) sends traffic under a session identifier, pulls the observations,
-- derives judgments, and the report (internal/report) renders them.
--
-- Files:
--   Prelude: lists, strings as bytes, strconv and net.SplitHostPort, Go maps as association
--     lists, sorting, Go's int where it can be negative.
--   Proto/SessionId: internal/proto/uuid.go, NewID on 16 random bytes and ValidSessionID.
--     Proto/Types: internal/proto/types.go. Proto/Store: internal/proto/store.go; Store is a
--     record, Append, Get, Len and GC are functions of the clock's reading and the store.
--   Probe/Outcome, Probe/Hello and Probe/Hello/Extensions: the ClientHello parser of
--     internal/probe/ja3.go. An index out of range is the outcome `panic`, which a theorem can
--     exclude. Probe/Fingerprint: JA3 and JA4 of the same file.
--   Probe/Server: configuration and shared state of internal/probe/server.go; Probe/Handlers its
--     HTTP and TCP handlers; Probe/Mux the routes that Start registers and writeJSON, by the
--     rules of http.ServeMux, and Probe/Paths how it reads a path; Probe/Lifecycle the binds of
--     Start, their addresses, and Shutdown; Probe/Serve its loops: serveHTTP, serveTLS,
--     acceptExtra and gcLoop, and the wait group that Shutdown waits for. Probe/Command: main of
--     cmd/probe/main.go. Probe/Udp: internal/probe/udp.go. Probe/Tls: internal/probe/tls.go.
--     Probe/System: the goroutines of Start together, as a step relation on the server.
--   Client/Routes: the routing tables of internal/client/local_linux.go. Client/ResolvConf:
--     parseResolvConf of internal/client/local.go. Client/Local: CollectLocal of local_linux.go
--     and local_other.go, and collectInterfaces of local.go. Client/Session:
--     internal/client/session.go. Client/Probed: buildProbeResult of internal/client/run.go.
--     Client/World: the configuration of Run and what a run meets; Client/Measure: the steps of
--     Run of the same file, up to the direct comparison; Client/Run: Run and runDirect.
--   Client/Dns/Query: queryDoH of internal/client/dns.go. Client/Reputation/Requests: the
--     requests of internal/client/reputation.go. Client/Nat, Client/Pmtu, Client/Dns,
--     Client/Reputation, Client/Attribution: the files of internal/client of these names, with
--     finalizeAttribution of run.go, and setPMTUDiscDo of pmtu_linux.go and pmtu_other.go in
--     Client/Pmtu. Client/Types and Client/Result: the records of result.go, local.go and
--     reputation.go.
--   Cli: main of cmd/netsee/main.go, with internal/version/version.go. Client/Session/EndToEnd:
--     the client's requests over HTTP against the probe. Probe/Sockets: readudp_linux.go,
--     readudp_other.go, tcpinfo_linux.go and tcpinfo_other.go of internal/probe, with tcpInfo of
--     server.go. Report and Report/Items: internal/report/report.go. Report/Text and its
--     children: internal/report/text.go, each call of p as one line.
--
-- State is passed explicitly: a handler takes the server and gives the server and its answer.
-- What comes from outside is an argument: the clock and the fresh identifier (Env), JSON
-- decoding, MD5 and SHA-256, net.ParseAddr, time.Format, the reads of a connection and the
-- answers of a socket as lists or functions. The mutex of the registry makes each operation one
-- step; runs of them are in Proto/Store/Runs. Proto/Store/Order lets each call find the map in
-- another order, as Go does, and compares with the model's. A handler has at most one access to
-- the registry, so in Probe/System one arrival is one step.
--
-- Fuel: the loops of the parser run on the length of their input, which each round shortens;
-- running out is the outcome `stuck`. The path MTU search has fuel 14, since its interval of at
-- most 9000 sizes is halved each round; running out is the outcome `pmtu_stuck`. Pull has fuel
-- for 152 rounds, more than fit into its 3 seconds at 20 ms a round. Run has fuel for itself and
-- for the direct run in it, which has no direct run of its own.
--
-- A measurement takes what the network and the libraries answer as parameters; the replies to
-- Pull and the tests of the extra ports go by the steps of Run that came before them (Contact of
-- Client/World). The binds of Start go by the listeners that are open, so a port that is named
-- twice can be refused. For the blackhole check of RunPMTU the parameter is all that reached the
-- socket, the echoes of the search included. The deletion of the host route has an outcome,
-- which runDirect does not read.
--
-- Not modelled: sockets and the system calls, the wire format of HTTP and the mux's own error
-- pages, JSON, the formatting of a float64 in the text, the package flag, the signals, the
-- timeouts of connections, the location of a redirection beyond its path. A float64 of
-- milliseconds in the report is kept as the microseconds that it is computed from. The order in
-- which Go ranges over a map is the order of the association list; for the registry,
-- Proto/Store/Order shows when another order gives the same answers.
pub mod Prelude
pub mod Proto
pub mod Probe
pub mod Client
pub mod Report
pub mod Cli
