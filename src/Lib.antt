-- ===== src/Lib.antt =====
-- RatholePro: the tunnel core in go-core.
--
-- A server listens for clients; a client dials, authenticates a service with the hash of a token,
-- and hands the connection to yamux. The server keeps the sessions of a service in a pool and
-- opens a stream on one of them for each visitor. Connections may run through WebSocket frames or
-- the noise transport; UDP services put datagrams in frames on a stream. A relay copies between a
-- visitor and a stream, and on the other side between the stream and the local service. The HTTP
-- proxy and the hole punching stand beside the tunnel.
--
-- Prelude: shared lists, numbers, machine words, bits, and functions with an error result over a
--   state (Prelude.Exec), where the changes made before an error stay.
-- Net: a connection, with io.ReadFull, Write and Close; io.ReadFull takes all of its bytes or
--   reports the end of the stream. Net.Wire is the interface net.Conn, an instance argument of the
--   code that works over any connection, and io.ReadFull over a Read.
-- Bufio: the buffered reader of the proxy and of the WebSocket upgrade, which takes more from a
--   connection than the lines it gives; Prelude.Text is the part of package strings they use.
-- Protocol: go-core/protocol/protocol.go. Framing writes and reads back, Accepts inverts
--   ReadMessage. encoding/json is the record Json, and SHA-256 the argument hash_token.
-- Config: go-core/config/config.go; the TOML decoder is the argument unmarshal.
-- Server: go-core/server/server.go. Server.Pool is sessionPool and udpPool, with a yamux session
--   as a number; Server.Auth is handleClientConn and its helpers, handleVisitor up to the relay,
--   and the pools that Run makes. yamux.Server is the argument yamux_server. Server.Run is what
--   Run starts for its services (Listeners), the goroutine of a UDP service as a list of events
--   (Waiting), and the accept loop with the upgrade of each connection (Clients).
-- Client: go-core/client/client.go, authenticate and the numbers that Run works with;
--   Client.Meeting and Client.Handshake run authenticate against handleClientConn, each on what the
--   other wrote. Client.Session is runTCPSession, runUDPSession, handleTCPStream and the goroutines
--   of Run; Client.Session.OverNoise and OverWs put a client and a server behind the noise
--   and the WebSocket transport, from the dialled connection on, with OverStream for what they
--   share.
-- Transport.WsFrame: go-core/transport/wsframe.go (Read, Write, readFrame, writeFrame).
-- Transport.Noise: go-core/transport/noise.go; base64 is the argument decode, and what the random
--   source gives the argument entropy. Transport.Xor is the mask that both transports use.
-- Transport.WebSocket: go-core/transport/websocket.go, WSClientUpgrade and WSServerUpgrade.
-- Transport.AutoCert: go-core/transport/autocert.go; the files are a table by path, and what
--   crypto, x509, pem and net give are the fields of CertEnv.
-- Transport.Factory: go-core/transport/transport.go, and applyServerTransport,
--   applyClientTransport and dialWithTransport of the server and the client.
-- Transport.Stream: what a transport makes of a connection, as a net.Conn: io.ReadFull, Write and
--   Close of a bare connection, a NoiseConn and a WSConn. Writes and Messages say what one end
--   sends and the other gets, Rounds that io.ReadFull comes to its end.
-- Relay: go-core/relay/relay.go; the two copies and the network in any order, as a list of events.
--   Relay.Returns says when a relay comes to its end. Relay.Tunnel puts the relay of the server and
--   the one of the client behind each other.
-- Service: handleVisitor and handleTCPStream with the relays in which they end. Service.Tunnel is
--   both relays with the yamux stream between them, which carries bytes and the Close of an end,
--   and has no half-close; its events are the steps of the copies, the stream and the peers.
-- HttpProxy: go-core/httpproxy/httpproxy.go; net.DialTimeout is the argument dial. HttpProxy.Tunnel
--   is the pair of copies of HandleCONNECT, by Relay, and the accept loop of ServeHTTPProxy.
-- LoadBalancer: go-core/loadbalancer/loadbalancer.go; the dial and the random draw are arguments.
-- Udp: go-core/udp/udp.go; a round of each of the loops of ServerUDP is a step on shared state.
--   Udp.Serving is ServerUDP with its socket, and with what ends each loop; Udp.Local is ClientUDP,
--   the same for it in Udp.Local.Ends. Udp.Passage has both at the two ends of a stream.
-- P2p: go-core/p2p/p2p.go, the STUN request and the parsing of the response. P2p.Punch is
--   HolePunch and ExchangeAndPunch, with what the socket reads as an argument.
-- Heartbeat: go-core/heartbeat/heartbeat.go; the loops of the server and the client over any
--   net.Conn, tick by tick and message by message, the times that they and a Monitor are set to,
--   and Monitor as a step relation over its goroutines and callers.
-- Main: go-core/main.go, from the parsed flags to the call of the server or the client.
-- Runs: small inputs on which the theorems are applied.
--
-- Bounds and fuel: readFrame calls itself after a ping; next_frame gives it one round more than
-- there are bytes to come, and each round takes two bytes. The STUN loop has 257 rounds, one more
-- than the buffer has bytes, and each round takes four bytes. The reading of an HTTP head has one
-- round more than there are bytes unread, and each round takes a line. The loop of ClientUDP over
-- the stream needs one round more than there are frames. io.ReadFull over NoiseConn and WSConn has
-- one round more than there are bytes asked for and bytes to come, since each Read gives a byte or
-- takes two. HolePunch has its ten rounds. Texts are
-- ASCII. Integers of a width wrap around where the code's do; the load balancer's counts of
-- connections do not. Times are in nanoseconds.
--
-- Not modelled: what yamux does with a connection, which is the arguments yamux_server,
-- yamux_client, open_stream and stream_of; the stream of a UDP service and the one of a visitor are
-- byte connections. The deadlines, for which the end of what a connection receives stands, and
-- SetNoDelay. The ticks of a ticker have no times. Mutexes are left out: an operation that holds
-- one is one step of
-- the model. Log lines have no model.
pub mod Prelude
pub mod Net
pub mod Bufio
pub mod HttpProxy
pub mod Relay
pub mod Protocol
pub mod Transport
pub mod Config
pub mod Server
pub mod Client
pub mod LoadBalancer
pub mod Udp
pub mod P2p
pub mod Heartbeat
pub mod Main
pub mod Service
mod Runs
