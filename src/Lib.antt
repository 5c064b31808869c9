-- ===== src/Lib.antt =====
-- Engarde carries the TCP streams of a SOCKS5 front end over several connections at once (carriers), one
-- per network interface, between a client and a server. This library models the stream layer,
-- internal/tcpstream, the state that both roles keep above it, and what decides which interfaces are
-- used, and proves what its correctness rests on.
--
-- Parts and files:
--   Shared                  Boolean tests, lists and options over the native numbers.
--   Wire                    a net.Conn as a value: the bytes to be read, the bytes written, and what
--                           each Write and each deadline call will answer. `Io` passes it along.
--   Tcpstream/Frame         internal/tcpstream/frame.go: WriteFrame, ReadFrame and validateFrame as
--                           write_frame, read_frame and validate_frame; the preface in Frame/Preface.
--   Tcpstream/Destination   internal/tcpstream/destination.go: NewDestination, DecodeDestination and
--                           Encode as new_destination, decode_destination and encode.
--   Tcpstream/Reassembler   internal/tcpstream/reassembler.go: Push, SetFIN and DrainTo as push, set_fin
--                           and drain_to. Segments, Merging, Gaps hold the lemmas on lists of segments,
--                           Invariant the invariant, Coverage and Draining what the operations do.
--   Tcpstream/Flow          internal/tcpstream/stream.go: the fields of Flow behind flow.mu and the
--                           functions that run under it. Acknowledgements are in Flow itself, what goes
--                           to a carrier in Flow/Sending, what comes from it in Flow/Delivery, attach,
--                           detach and reset in Flow/Lifecycle.
--   Tcpstream/Carrier       internal/tcpstream/carrier.go: the acknowledgement that waits on a carrier,
--                           enqueueAck and takePendingAck as enqueue_ack and take_pending_ack.
--   Config                  internal/config/config.go: the configuration, ApplyDefaults and ResolveRole;
--                           Validate and its checks in Config/Checks. Config/Presence tells a section
--                           field by field, Config/Guards what the single checks make sure of, and
--                           Config/Roles what the role and the whole of Validate do.
--   Paths                   internal/path/path.go: Manager with Include, Exclude, ToggleExclusion and
--                           ResetExclusions as include, exclude, toggle_exclusion and reset_exclusions.
--   Socks5                  internal/socks5/socks5.go: ReadConnectWithAuth and authenticate as
--                           read_connect_with_auth and authenticate, with a definition for each stage
--                           of the handshake; Socks5/Login and Socks5/Handshake follow what was read.
--   Tcpstream/Auth          internal/tcpstream/auth.go: AuthenticatePeerClient and
--                           AuthenticatePeerServer; what each has read in Auth/Client and Auth/Server,
--                           both ends together in Auth/Exchange.
--   Tcpstream/Session       internal/tcpstream/session.go: DialSessionWithAuth, AcceptSession and
--                           OpenDestination as dial_session_with_auth, accept_session and
--                           open_destination; a mux stream is a connection of its own.
--   Serverrole              internal/serverrole/tcp.go and server.go: the streams behind runtime.mu in
--                           Streams, with getOrCreate as begin_stream, finish_dial and finish_flow, one
--                           for each time that it holds the lock; the ids that ended lately in Closed;
--                           the counts, the list of clients and the answers to OPEN in Admission.
--                           Streams/Reachable has the operations as steps, Streams/Meanwhile those that
--                           lie between the end of a stream and a request for its id.
--   Clientrole              internal/clientrole/tcp_group.go: tcpPathSession in PathSession, the delays
--                           between attempts in Backoff, the opening of a tcpCarrierGroup in Group, and
--                           its slots in Slot. A beforeAttach that returns an error may have written its
--                           reply, so that Group tells its calls by what they return.
--   Stats                   internal/stats/traffic.go: the counters modulo 2^64.
--
-- A carrier hands frames to handleFrame, which queues them for writeEndpoint; this pushes each into the
-- Reassembler, drains it into the endpoint and acknowledges. In the other direction remember puts a
-- frame into the history, each carrier replays the history from its own position, and acknowledge
-- prunes it. The sequences of arrivals and of events in Flow/Delivery and Flow/Lifecycle/Ending are
-- free, so that every interleaving of the goroutines is one of them.
--
-- Bytes and machine words are native numbers. Offsets are uint64: sums wrap where the source's do, and
-- subtractions stand behind the tests that keep them from wrapping. The loops are structural recursion
-- over the entries, the bytes or the outcomes of the environment, but for evict and prune_loop of
-- Serverrole/Closed, which run on fuel: they get the number of the ids in their order, and each turn
-- takes one of these. Errors are values without their texts. A wait on the condition variable is a result of its own, after
-- which the caller starts again from the state it finds.
--
-- net/netip is a parameter of the model of destinations, with its documented laws as hypotheses where a
-- theorem relies on them. So are HMAC, SHA-256 and random bytes, smux's settings, sort.Slice and
-- what net does with the texts of clients, of which nothing is assumed. What strings.TrimSpace, ToLower
-- and Split do with a host is written out.
--
-- The client opens a stream by an OPEN frame in a session, and the server answers once getOrCreate has a
-- stream for it: Serverrole/Admission/Answers takes the answer to the client's end. A path session
-- and a carrier group meet in the session's number and generation, which a slot keeps.
--
-- Not modelled: goroutines, channels, timers and sockets as such: what they do is an event or an argument
-- of an operation; the buffer pools; smux; the server's cache of traffic by address; the client's
-- listener, its list of paths and its status; the HTTP control interface; reading the configuration
-- file and its YAML.
pub mod Clientrole
pub mod Config
pub mod Paths
pub mod Serverrole
pub mod Shared
pub mod Socks5
pub mod Stats
pub mod Tcpstream
pub mod Wire
