-- ===== src/Lib.antt =====
-- Spaceship: the core of a proxy that accepts SOCKS5 and HTTP clients, chooses an egress for each
-- destination and relays TCP streams and UDP datagrams, some of them over gRPC to a server of its own.
--
-- How the parts interact: `ServeConn` (internal/socks/socks.go) authenticates a client, reads its
-- request and calls a handler; the handler of a connect asks the router (internal/router) for the
-- transport of the destination's host; the handler of an associate opens a UDP relay
-- (internal/socks/udp.go), whose flows ask the router too, under limits that all relays share; the
-- proxy transport takes its connections from a pool (internal/transport/rpc/client). The handlers of
-- the HTTP proxy (internal/http) ask the same router. A stream of the proxy transport has an end in the
-- client and one in the server (internal/transport/rpc/client and .../server), which dials the target
-- through its own router; DNS requests go to the server too, from a front end of their own
-- (internal/dns). `Apply` (pkg/config) sets the variables of all of them, and the launcher (api) starts
-- the services that a configuration names.
--
-- Files and what they model:
--   Base         the shared names: tests on numbers, lists, byte strings, maps and results
--   Net          the functions of Go's `net` package that the code computes with (To4, To16, Equal)
--   Hosts        `NormalizeHost` of internal/utils/net.go
--   Socks        internal/socks:
--     Limiter    `udpResourceLimiter` (udp.go): acquire, release
--     Header     `ParseUDPHeader`, `MarshalUDPHeader` (udp.go)
--     Nat        `natTable` (udp.go): Load, Store, Install, DeleteIf, Drain
--     Relay      the flows of `UDPRelay` (udp.go): the critical sections of getOrCreateNAT are
--                open_flow, install_flow and recheck_flow; the end of reverseRelay is finish_flow;
--                natEntry.Close is close_entry, and UDPRelay.Close is its stages close_done, drain_table,
--                close_next and release_association
--     Packets    handlePacket and a round of reverseRelay (udp.go)
--     Opening    SetUDPSettings, relayBindAddress, NewUDPRelay (udp.go)
--     Dialing    dialPacketTarget, natKey, the loop of reverseRelay (udp.go)
--     Jobs       Run and readLoop with the workers (udp.go)
--     Wire       the client's connection: bytes still to be read, bytes written
--     Auth       auth.go, and pkg/auth/credentials.go
--     Request    NewRequest, readAddrSpec, sendReply (request.go)
--     Server     ServeConn (socks.go) and the handlers (request.go)
--   Router       internal/router:
--     Egress     egress.go
--     Table      `syncedRoutesTable` (table.go)
--     Route      `Route` (route.go), GenerateCache and Match
--     State      the package's variables and functions (cache.go, routes.go)
--   Transport    the settings and counters that transports share (internal/transport/common.go,
--                setter.go, stats.go)
--     Session    the goroutines of Proxy (direct/direct.go, forward/forward.go) with copy.go
--     Closing    CloseAll of copy.go, and internal/utils/once_closer.go
--     Direct     the dials and packet connections of direct/direct.go, with forward/forward.go and
--                blackhole/blackhole.go
--   Config       `MixedConfig.Apply` (pkg/config/config.go):
--     Stages     its parts, in order; apply runs them up to the first that fails
--     Logging    pkg/logger/mode.go
--     Resolver   pkg/dns/dns.go
--     Users      pkg/config/server/user.go
--     Buffer     the sizes of internal/transport/rpc/options.go
--     Rejected   what a refused configuration leaves, and Applied what an applied one does
--   Http         internal/http:
--     Headers    the hop-by-hop filter (filter.go) and writeForwardRequest (http.go)
--     Basic      parseBasicAuth (lib.go) and BuildRemoteAddr (utils.go)
--     Handlers   proxyAuth, Handle, handleConnect and handleRequest (http.go), up to the transport
--     Connect    the tunnel of handleConnect (http.go) and ServeProxyError (utils.go)
--   Rpc          internal/transport/rpc:
--     Messages   the types of proto/proxy.pb.go, and the errors of both ends
--     Client     Setup is client.go up to Proxy, with DialPacket and handshake.go; Forward is
--                forwarder.go, Stream the goroutines of its Start with Proxy of client.go;
--                Packet and Deadline are packet_conn.go; Resolve is DnsResolve of client.go
--     Server     Forward is forwarder.go, Session its two directions with Proxy of server.go; Resolve
--                is DnsResolve of server.go with dns.go; Access is interceptor.go
--     Names      config.go, proto/dynamic_service.go, server/dynamic_server.go and
--                client/dynamic_client.go
--     Records    utils/dns_conversion.go
--     Tunnel     both ends of a stream together, and Resolution both ends of a DNS request
--     Pool       `ConnQueue` and `ConnWrappers` (client/queue.go, client/wrapper.go)
--   DnsServer    internal/dns/dns.go
--   Management   internal/management/server.go
--   Indicator    internal/indicator/indicator.go
--   Launching    api/launcher.go and api/stopper.go
--   Tests        the theorems at concrete inputs
--
-- State is passed explicitly. A method that holds a mutex throughout is one function; where
-- goroutines interleave, each critical section is one function and a data type of steps has all the
-- orders (Socks.Relay.Steps, Socks.Jobs, Transport.Session, Http.Connect, Rpc.Server.Session,
-- Rpc.Client.Stream, Rpc.Client.Deadline). A loop over what a stream or a socket gives is recursion
-- on the list of what it gives, errors included; a list that ends without an error is a loop that
-- still waits. Numbers are natural numbers; a counter of the source that can wrap around is taken
-- modulo 2^32 or 2^64, and a byte of a port modulo 256. A Go map is an association list with
-- distinct keys. An index out of range is the error `panic`.
--
-- Fuel: the eviction loop of the route table has one round more than there are entries, and the loop
-- over parent domains one more than the host has bytes. A round of the first clears a bit or ends the
-- loop, and one of the second shortens the host. A line is broken with as many rounds as it has bytes.
--
-- Parameters: SHA-256 (`digest`), Base64 (`decode`), regular expressions, CIDR prefixes, addresses and
-- route files (`Lib`), the text of an IP (`ip_text`), the outcome of a listen or dial, the state of a
-- gRPC connection, DNS records and the name server (`DnsLib`), the keys of HTTP headers (`HttpLib`),
-- the splitting and joining of addresses (`AddrLib`, `Outside`, `NetLib`), the parsing of UUIDs and
-- certificates, the size of the terminal, and what readers and writers answer.
--
-- Not modelled: sockets, timers and the copying of bytes between them; the durations of timeouts;
-- listening, hijacking and the wire format of HTTP, and the pipe of handleRequest; the encoding of
-- gRPC messages, the options of its connections and the setup of its server; signals; the decoding
-- of JSON; the speeds, which are floating-point numbers; the cancellation of the black hole. Host
-- names are ASCII. The singleflight barrier of getOrCreateNAT is left out: without it there are
-- more interleavings, and the relay's theorems are about all of them.
pub mod Base
pub mod Net
pub mod Socks
pub mod Router
pub mod Hosts
pub mod Transport
pub mod Config
pub mod Http
pub mod Rpc
pub mod Indicator
pub mod Management
pub mod DnsServer
pub mod Launching
pub mod Tests
