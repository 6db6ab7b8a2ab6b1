-- ===== src/Lib.antt =====
-- LocalSend finds devices in a network and sends files between them. The Rust code has a signaling
-- server (server/), through which devices of one network find each other, and a core library
-- (core/), in which two devices then open a WebRTC data channel, prove their identities with
-- tokens, ask for a PIN where one is set, and send files.
--
-- The parts and their files:
--  Prelude      helpers: tests, native-number lists, bytes and texts, results, a HashMap as an
--               association list (Prelude/Dict).
--  Model        core/src/model: the data that the channels share.
--  Signaling    core/src/webrtc/signaling.rs: the messages of the server and its clients. Client has
--               the two tasks of `connect`, what a client sends, and the listener of
--               `start_listener`; Connect has `connect` itself.
--  Server       server/src. State is config/state.rs, config/scheduler.rs and the quota
--               `protect_ddos_request_count`; Socket is `handle_socket` of
--               controller/ws_controller.rs, cut at its locks: `connect`, then any number of
--               `receive`, then `disconnect`, each a function from the shared maps to the maps and the
--               messages sent; System is the server with all its sockets as a step relation in which
--               these blocks interleave; IpGroup is util/ip.rs; Upgrade is `ws_handler`; Error is
--               config/error.rs. Members, Bounds, Delivery and the children of System hold the
--               proofs.
--  Crypto       core/src/crypto. Nonce is nonce.rs, Token is token.rs, and Cert is cert.rs with
--               `verify_client_cert` of http/server/client_cert_verifier.rs; Keys has the keys of
--               token.rs as PEM texts, with app/rust/src/api/crypto.rs.
--  Http         core/src/http. Dto has dto.rs, state.rs and mod.rs; Server is server/mod.rs with its
--               routes, and Server/Controller the state, errors, responses and controllers (`register`
--               of v2.rs and v3.rs, `nonce_exchange` of v3.rs); Client is client/mod.rs and Client/Url
--               is url.rs. Client/Agreement puts client and server together. Server/Accept serves
--               a connection, and Server/Start the sockets and the TLS of the
--               server. Reply has results with errors of their own, and Lru the interface of the
--               caches.
--  Webrtc       core/src/webrtc/webrtc.rs. Chunks has the streams in chunks, Messages the protocol's
--               messages, Io the channels of a task as a state, Pin `verify_pin` and `handle_pin`,
--               Transfer the file loops of `send_offer` and `accept_offer`. Handshake has their
--               tasks as wholes: Handshake/Sending is `send_task`, Handshake/Accepting is
--               `receive_task`. Keeps puts together what tasks log from their parts, and Trust uses
--               it for the two tasks. Session runs the two tasks against each other in
--               turns, and Session/Pins the exchange of a PIN that the receiving peer asks for. Peer has these
--               two functions around their tasks: Peer/Exchange sets up a connection over the
--               signaling server, and Peer/Endings says how the calls end.
--  App          app/rust. Buffer is util/bytes.rs, and Webrtc is api/webrtc.rs: `connect`, the
--               controllers of a transfer (Webrtc/Sending and Webrtc/Receiving, with PinSender, which
--               both have), and Webrtc/Tasks, the tasks that run core's functions.
--
-- Numbers are natural numbers; a u32, u64 or u8 that may wrap is reduced explicitly. A Rust String
-- is its UTF-8 bytes. A tokio task is a function of the channels that it works with: what they
-- still deliver, and a log of what it has sent; whether a send succeeds is a parameter. Where two
-- tasks run against each other, they take turns: in each, a task runs on what the other has sent so
-- far, and where it would wait for more its channel is at its end. A channel of
-- the server is its number, and handlers return the list of their sends.
--
-- Fuel: the inner loop of `process_in_chunks` has the length of the buffer as fuel, and each round
-- takes a full chunk off; `verify_pin` has 257, more than a u8 has values, and each round counts a try
-- up to `max_tries`, a u8; to print a number of an address or a port, the number of its digits.
--
-- A call of a controller of App is one step, also where it waits: a receiver is given with all that it
-- will deliver, so that the order of calls is kept, and not when each of them returns.
--
-- Parameters: ed25519, sha256 and base64 (the record Crypto, with the laws CryptoLaws where a
-- theorem needs them), X.509 and PEM (the record X509), the LRU caches (the record Lru with LruLaws),
-- serde_json (the records Json of Webrtc and Http, whose codecs parse what they print), the transport
-- of the HTTP client, the TLS of the server (the records Rustls, and Tls with TlsLaws), the responses
-- of the crate axum and its reading of a URI's parameter, PEM texts of keys and the keys of the crate rsa (the record KeyFormats with
-- KeyLaws), an `RTCPeerConnection` (the record Connection), flate2 (the record Zlib), opening a web
-- socket, random nonces, and the random identifiers of sockets, of which a step asks that no open
-- socket has them.
--
-- Not modelled: ICE and the state of a data channel inside the crate webrtc, the set-up of sockets
-- and of the HTTP client, backpressure of full channels, the timeout of a send, logging but for the
-- errors of a handler, the bindings and mirror types of app/rust, and the Dart application.
pub mod Prelude
pub mod Model
pub mod Signaling
pub mod Crypto
pub mod Server
pub mod Http
pub mod App
pub mod Webrtc
