-- ===== src/Lib.antt =====
-- zeromasque: a CONNECT-UDP proxy (RFC 9298) over QUIC and HTTP/3, and its client.
--
-- The server (src/server.rs) owns one UDP socket and every QUIC connection on it. A packet is routed to
-- its connection by the connection id; the HTTP/3 events of the connection are CONNECT requests, which
-- open flows, and the ends of streams, which close them; the datagrams of the connection are payloads
-- for flows. Which target a flow has is decided by the rule table (src/rules.rs) alone, by the endpoint
-- (src/endpoint.rs) that the request names. A datagram (src/dgram.rs) is two variable-length integers
-- (src/varint.rs) and the payload. What the connections want to send is batched for the socket
-- (src/io.rs). The client (src/client.rs) opens one flow for every local source. TLS is Encrypted
-- Client Hello with the configurations of src/ech/config.rs, which come with their private keys from
-- bundles (src/ech/key.rs) that src/ech/keygen.rs writes, and a guard on the SNI (src/quic.rs). On a
-- signal the keys, the rules and the TLS configuration are loaded anew (src/reload.rs).
--
-- Files, and the code that they model:
--   Prelude, Prelude/*: Boolean tests, lists, results, membership. No code of the program.
--   Bytes: big-endian numbers, as `to_be_bytes` gives them.
--   Varint: src/varint.rs. Dgram: src/dgram.rs.
--   Text: the operations of `str` that the program calls, on UTF-8 bytes. Text/Utf8: `from_utf8`.
--     Text/Trim: `trim`, `lines` and `strip_suffix`.
--   Endpoint: src/endpoint.rs. Net: the addresses of std::net.
--   Rules: src/rules.rs, and `install_sni_guard` of src/quic.rs.
--   Ech/Reader, Ech/Config: src/ech/config.rs. Ech/Pem, Ech/Key: src/ech/key.rs. Ech/Keygen:
--     src/ech/keygen.rs. Util: src/util.rs.
--   Quic: the configurations of src/quic.rs, as the calls that make them. Reload: src/reload.rs.
--   Startup: what src/main.rs loads before the runtime starts.
--   Map: `HashMap`, as a list of entries.
--   Io: `SendBatch`, `send_packets` and the end of `recv_udp_segments` of src/io.rs; Io/Connection:
--     `flush_connection`; Io/Recv: the task of `spawn_udp_recv`; Io/Raw: the sends
--     down to `sendmsg`, with the loop that waits for the socket; Io/Relay, Io/Chunks, Io/Batch, Io/Send, Io/Flush: what is proved about them.
--   Transport: the quiche operations that both sides call, as an interface, and what is assumed of them.
--   Server/Request: `ConnectRequest`. Server/Bind: `bind_target`. Server/Session: `process_client` with
--     `handle_connect_request` and `drain_client_datagrams`. Server/Routing: `on_packet`, `accept`,
--     `on_target_payload`, `flush_all`, `reap_closed` and `sweep_idle_flows`. Server/Loop: `run`.
--     Server/Target: `target_task`. All of these are of src/server.rs.
--   Client: `open_pending_flows`, `poll_responses`, `route_tunnel_datagrams`, the handling of local
--     packets and the backoff of src/client.rs; Client/Session: the states that a session reaches;
--     Client/Dial: `dial`; Client/Turn: `run_session`; Client/Proxy:
--     `run_proxy`; Client/Loops, Client/Total: its fuel.
--   Each has its proofs in the modules below it.
--   Examples: the theorems at concrete inputs, on a scripted transport.
--
-- State and effects. A function that changes a connection, its HTTP/3 layer or the system takes
-- their states and gives them back: `C`, `H` and `W`. quiche, monoio, rand, the system calls, the
-- resolver and serde are fields of the records `Transport`, `Quic`, `Sockets`, `System` and
-- `Socket`, or parameters; so are base64ct (`Base64`), the file system (`FileSystem`, `Disk`) and
-- the standard streams (`Streams`). So is the kernel (`Kernel`, `Receiver`, `ToMain`). The
-- assumptions about them are `Drains` (between two packets a connection has finitely many events,
-- bytes and datagrams to give) and the laws of `Socket` (a send delivers the segments that it was
-- told to cut, or fails and delivers nothing), which is proved of `Kernel`s that send datagrams
-- whole (`SendsWhole`), the queues that sockets and channels are (`Queues`, `TargetQueues`) and
-- `Encodes` (base64 uses its alphabet and decodes what it encoded). Whether a channel has room is
-- for others to decide, who read from it at the same time: it is an answer to each send in its turn
-- (`fits`; `has_room` for the channel to a flow's task, of the flow, the moment and the payloads in
-- it), as whether a send to a target succeeds is (`lands`).
--
-- Numbers are natural numbers; bytes are below 256 where a theorem says so. Where the code does not wrap,
-- the bounds are hypotheses (a varint is below 2 ^ 62). Durations of rules are in seconds, the server's
-- clock in nanoseconds, the client's waits in milliseconds.
--
-- Fuel. `chunks_from` and `read_suites` have as much fuel as there are bytes, and every round takes one
-- at least. The loops over events, bodies, datagrams and outgoing packets take their fuel as an argument;
-- the theorems on them say that there is enough fuel and that the answer does not depend on it.
-- `Stop.panicked` is the panic of the `unwrap` of a routed client, `none` of an ECH encoder that of an
-- `expect`; other panics of `run` are not modelled.
--
-- Not modelled: logging; the layout of the messages of `recvmsg` and `sendmsg`; socket
-- options, which only call the system; signals; the parsing of the command
-- line. `io::flush_connection` stands in `flush_all` as the parameter `flush`, since the server
-- needs nothing of what it does to the socket.
pub mod Prelude
pub mod Bytes
pub mod Varint
pub mod Dgram
pub mod Text
pub mod Util
pub mod Endpoint
pub mod Net
pub mod Rules
pub mod Ech
pub mod Map
pub mod Transport
pub mod Quic
pub mod Server
pub mod Reload
pub mod Startup
pub mod Client
pub mod Examples
pub mod Io
