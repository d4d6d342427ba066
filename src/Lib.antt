-- ===== src/Lib.antt =====
-- clockbridge: a gateway with one public port, and agents behind it that serve clients through
-- WebSocket connections which they open themselves.
--
-- An agent registers under a uuid (internal/gateway/server.go, handleRegister). A client's request
-- for /uuid/path becomes a stream on the agent's connection (agentconn.go, stream.go): frames
-- (internal/proto/frame.go) carry it to the agent and the answer back (handleClientHTTP).
--
--   Base           shared names; Go strings, maps and integers over native numbers
--   Proto          internal/proto: frame types, EncodeFrame and DecodeFrame
--   Shared         internal/shared: proxy modes, headers, close codes, URL joining
--   Gateway/Stream internal/gateway/agentconn.go and stream.go
--   Gateway/Env    internal/gateway/server.go: NewServerFromEnv
--   Gateway/Policy, Gateway/Registry, Gateway/Route
--                  the same file: the proxy mode policy, handleRegister with its goroutines,
--                  ServeHTTP and handleClient up to the choice of the handler
--   Gateway/Http   the same file: handleClientHTTP, from the request's body to the response's
--   Gateway/WebSocket
--                  the same file: the three handlers of WebSocket requests, how they open and
--                  their goroutines
--   Agent/Streams  internal/agent/agent.go: connState and the streams of one connection
--   Agent/Dispatch the same file: handleStream up to the choice of the handler
--   Agent/Http     the same file: handleHTTP with its upload goroutine
--   Agent/Dial     the same file: dialWebSocketUpstreamRaw, and how the WebSocket handlers answer
--   Agent/Relay    the same file: the WebSocket handlers once the target is connected, and, in
--                  EndToEnd, Complete and RawEndToEnd, both sides of a relay together
--   Agent/Reconnect
--                  the same file: Run and reconnectBackoff
--   Remote         pkg/clockbridge/remote_forward.go: an agent's registration URL and dial address
--   Cli            cmd/clockbridge-cli/main.go: the checks of the command line's arguments
--
-- A Go string is the list of its bytes. A pointer to a stream or a connection is its index in a list
-- that only grows. What the source runs under a lock, in one `select` or as one close of a channel is
-- one function from state to state, and what it does in several such steps is composed of them; a
-- `select` with several ready cases takes the choice as an argument; goroutines are steps of a
-- history, a list of these steps in any order. A handler is a function of what it reads and receives,
-- and of a peer that decides which of its calls succeed; its result is the trace of what it did. The
-- goroutines of a WebSocket relay share a state, and a step is what one of them does between two
-- waits, so that a list of events is an interleaving; a loop that waits has no event left. An
-- `int` has 64 bits, sizes and times are natural numbers, durations of the environment are signed, and
-- the 32-bit stream counter wraps. No function here takes fuel: loops are recursions on the list that
-- they walk, and a list that runs out is a call that has not returned.
--
-- Not modelled: sockets, TLS, timers and pings; logging; internal/reverseproxy and the mock programs,
-- which set net/http up. Parameters stand for url.Parse and url.ParseQuery,
-- encoding/json, time.ParseDuration, netip.ParseAddr, the resolver, random numbers, the environment and files, and for
-- the outcomes of the WebSocket library's calls.
pub mod Base
pub mod Proto
pub mod Shared
pub mod Gateway
pub mod Agent
pub mod Remote
pub mod Cli
