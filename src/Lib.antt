-- ===== src/Lib.antt =====
-- ruproxy is a proxy server for several protocols: TUIC and Hysteria2 over QUIC, VLESS, VMess,
-- Trojan, SOCKS, Shadowsocks, AnyTLS and WireGuard. For each protocol a listener takes
-- connections, a parser reads the client's request, and a relay moves data between the client and
-- its target. This library models the parsers, the encoders and the state that the relays keep.
--
-- Shared modules:
--   Prelude    names of the library, Boolean tests on numbers, lemmas on lists
--   Bytes      bytes and big-endian integers
--   Io         results, and readers of a stream as functions of the bytes that are left
--   Map        HashMap as an association list
--   Bits       lemmas on `|` and `&` with disjoint bits
--   Ids        sets of numbers as lists, sorted, and what is joined in their order
--   Target     hosts and `host:port` texts of requests
--   Text       UTF-8 and from_utf8_lossy, printed numbers and addresses, and the string functions in use
--
-- Modules of the program's parts:
--   Tuic.Proto            src/tuic/proto.rs: Address, Command and the packet header
--   Tuic.Connection       src/tuic/connection.rs: the handlers of a connection, as functions on the
--                         state that its clones share; a task that waits for the authentication is an
--                         entry of the state, and Step of Tuic.Connection.Auth lets it go on or expire;
--                         Reply holds the way back to the client
--   Hysteria2.Varint      src/hysteria2/auth.rs, proxy.rs: variable-length integers
--   Hysteria2.Tcp         src/hysteria2/auth.rs, server.rs: the request of a TCP stream
--   Hysteria2.Frame       src/hysteria2/proxy.rs: UDP frames
--   Hysteria2.Fragments   src/hysteria2/proxy.rs: FragBuffer and relay_frame
--   Hysteria2.Gate        src/hysteria2/server.rs: handle_connection, on what h3.accept gives
--   Hysteria2.Sessions    src/hysteria2/server.rs: datagram_loop; Step interleaves the datagrams with the
--                         ends of the tasks
--   Shadowsocks.Nonce     src/shadowsocks/protocol.rs: the nonce counter
--   Shadowsocks.Header    src/shadowsocks/protocol.rs: the plain request and response headers
--   Shadowsocks.Stream    src/shadowsocks/protocol.rs: AeadReader and AeadWriter, over a cipher that is
--                         an argument, Aead; Seals is what they rely on of it
--   Anytls.Session        src/anytls/session.rs: frames, and what the read loop of run_server_session does
--                         with each, as functions on its variables; a channel to a stream's reader is
--                         a queue, and a send is what it does once there is room
--   Anytls.Padding        src/anytls/padding.rs: the parser of padding schemes, and the update
--   Config                src/config.rs: check_duplicate_tags
--   Vless.Protocol        src/vless/protocol.rs: the request header
--   Vless.Uuid            src/vless/protocol.rs: parse_uuid
--   Xhttp.Stream          src/common/transport/xhttp.rs: the read side of XhttpStream; the channel is the
--                         packets that were sent and are not received yet
--   Xhttp.Down            src/common/transport/xhttp.rs: the write side of XhttpStream
--   Xhttp.Path            src/common/transport/xhttp.rs: normalized_path, parse_path
--   Xhttp.Server          src/common/transport/xhttp.rs: the session table and the handlers of requests; each
--                         handler is a task that stands at one of its waits: for the lock of the
--                         table, for that of its session, or for room in a channel. Step of
--                         Xhttp.Server.Moves interleaves their moves with the tasks of the sessions,
--                         the ends of connections, accept and the readers of the streams
--   Vmess.Crypto          src/vmess/mod.rs: the keys, over the crates in use, which are an argument, Crates;
--                         Documented of Vmess.Crypto.Laws is what the code relies on of them
--   Vmess.Header          src/vmess/mod.rs: the request and the response header
--   Vmess.Body            src/vmess/mod.rs: relay_up and relay_down, each as a function on its loop's
--                         variables
--   Vmess.Process         src/vmess/mod.rs: process
--   Trojan                src/trojan/mod.rs: decode_trojan
--   Socks                 src/socks/mod.rs: handle, as a function from what the client sends to what is
--                         written and the target, in the terms of Io.Talk
--   Reality.Der           src/vless/tls/reality.rs: the DER functions
--   Reality.Hello         src/vless/tls/reality.rs: cipher suites and key shares; the loops have a unit of
--                         fuel for each byte of what they read, and a round takes two at least (Reality.Hello.Fuel)
--   Reality.Verify        src/vless/tls/reality.rs: verify_reality_client, the certificate of accept and the
--                         checks of build, over the record Primitives of what comes from crates; accept
--                         is a function of the bytes that have arrived when it peeks
--   Wireguard.Packet      src/wireguard/server.rs, stack.rs: the addresses in an IP packet
--   Wireguard.Server      src/wireguard/server.rs: the receiving loop, the encrypting tasks and the timer, on
--                         the table of peers; Event of Wireguard.Server.Events puts them in any order
--
-- A stream is the list of the bytes that the peer has sent and will send until it closes; a read
-- beyond them is the error of read_exact. Numbers are natural numbers, and where the source casts
-- or shifts, the wrap-around is written out. The number of digits that are printed is bounded by
-- 20, which is enough for a u64; the chunks of a payload are bounded by its length, since each has
-- a byte at least.
--
-- Not modelled: sockets, TLS, QUIC, timers and logs, which are effects in the state or arguments
-- of the model; name resolution, key export and the operating system's refusals are fields of
-- Tuic.Connection.Env.
pub mod Prelude
pub mod Bytes
pub mod Io
pub mod Map
pub mod Bits
pub mod Ids
pub mod Text
pub mod Tuic
pub mod Hysteria2
pub mod Target
pub mod Shadowsocks
pub mod Vless
pub mod Anytls
pub mod Xhttp
pub mod Vmess
pub mod Trojan
pub mod Socks
pub mod Reality
pub mod Wireguard
pub mod Config
pub mod Tests
