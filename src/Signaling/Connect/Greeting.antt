-- ===== src/Signaling/Connect/Greeting.antt =====
-- A client that connects to the server, from its URI to the server's greeting.
use mathlib.Core.List.{append_assoc, append-nil}
use localsend_uyava.Prelude.{
  ◌≡◌, ◌≢◌, refl, sym, ap, ◌∙◌, List, [], ◌∷◌, ◌++◌, map, Option, none, some, Bytes, Text, Result,
  ok, true, ℕ-Eq, All, ascii, Text-Eq,
}
use mathlib.Core.Option
use localsend_uyava.Prelude.Dict.{Distinct}
use localsend_uyava.Model.{Codec}
use localsend_uyava.Crypto.Token.{value}
use localsend_uyava.Signaling.{Uuid, ClientInfo, ClientInfoWithoutId, with_id, WsServerMessage}
use localsend_uyava.Signaling.Client.{Incoming, Read, read_loop, read_frame, read_message}
use localsend_uyava.Signaling.Connect
use localsend_uyava.Signaling.Connect.{SignalingConnection, encoded_info, connect_uri}
use localsend_uyava.Server.State.{Limits, Sender, ClientState, AppState, Send, room}
use localsend_uyava.Server.Socket
use localsend_uyava.Server.Socket.{joined}
use localsend_uyava.Server.Members.{member}
use localsend_uyava.Server.Delivery.{inbox}
use localsend_uyava.Server.Delivery.Admission.{find_peer, connect_greets}
use localsend_uyava.Server.IpGroup.{IpAddr, get_ip_group}
use localsend_uyava.Server.Upgrade.{Web, ws_handler, raw_forwarded, or_else, peer_info}

-- A message as the server's socket delivers it, to a client that takes it.
abbrev pub printed : Codec WsServerMessage → WsServerMessage → Incoming
printed json message = record { text = some (json.to_string message); taken = true; kept = true }

-- The clients that messages greet.
abbrev greets : WsServerMessage → List ClientInfo
greets (WsServerMessage.hello client peers) = client ∷ []
greets message = []

abbrev greeted_in : List WsServerMessage → List ClientInfo
greeted_in [] = []
greeted_in (message ∷ messages) = greets message ++ greeted_in messages

abbrev and_read : Read → List ClientInfo → List WsServerMessage → Read
and_read read clients messages = record {
  clients = read.clients ++ clients;
  messages = read.messages ++ messages;
}

unless_hello :
    (read : Read) (messages : List WsServerMessage)
    → record read { messages = messages }
      ≡ record { clients = read.clients ++ []; messages = messages }
unless_hello read messages =
    ap (λ cs. record { clients = cs; messages = messages }) (sym (append-nil read.clients))

read_message-printed :
    (json : Codec WsServerMessage) (message : WsServerMessage) (read : Read)
    → read_message (printed json message) message read
      ≡ and_read read (greets message) (message ∷ [])
unfolding read_message
read_message-printed json (WsServerMessage.hello client peers) read = refl
read_message-printed json (WsServerMessage.join peer) read = unless_hello read _
read_message-printed json (WsServerMessage.update peer) read = unless_hello read _
read_message-printed json (WsServerMessage.left id) read = unless_hello read _
read_message-printed json (WsServerMessage.offer sdp) read = unless_hello read _
read_message-printed json (WsServerMessage.answer sdp) read = unless_hello read _
read_message-printed json (WsServerMessage.error code) read = unless_hello read _

read_frame-printed :
    (json : Codec WsServerMessage) (message : WsServerMessage) (read : Read)
    → read_frame json (printed json message) read ≡ and_read read (greets message) (message ∷ [])
unfolding read_frame
read_frame-printed json message read =
    rw (json.from_slice-to_string message) (read_message-printed json message read)

-- The reading task takes what is printed.
read_loop-printed :
    (json : Codec WsServerMessage) (messages : List WsServerMessage) (read : Read)
    → read_loop json (map (printed json) messages) read
      ≡ and_read read (greeted_in messages) messages
unfolding read_loop
read_loop-printed json [] read = rw (append-nil read.clients, append-nil read.messages) refl
read_loop-printed json (message ∷ messages) read =
    ap (read_loop json (map (printed json) messages)) (read_frame-printed json message read)
    ∙ (read_loop-printed json messages (and_read read (greets message) (message ∷ []))
        ∙ rw
            (
              append_assoc read.clients (greets message) (greeted_in messages),
              append_assoc read.messages (message ∷ []) messages,
            )
            refl)

-- A URI without a query.
abbrev pub NoQuery : Text → Type 0
NoQuery uri = All (λ ch. ch ≢ b'?') uri

-- The crate axum: the parameter d of a request's URI, if there is one. What base64 encodes has no
-- characters that end it.
abbrev pub ReadsParameter : (Bytes → Text) → (Text → Option Text) → Type 0
ReadsParameter encode query =
    (uri : Text) (b : Bytes)
    → NoQuery uri
    → query (uri ++ (ascii "?d=" ++ encode b)) ≡ some (encode b)

module _ (web : Web) (encode : Bytes → Text) (json : Codec WsServerMessage)
    (query : Text → Option Text) (decode-encode : (b : Bytes) → web.decode (encode b) ≡ ok b) where
  -- The server reads the client's information from its URI.
  ws_handler-encoded_info :
      (info : ClientInfoWithoutId) (id : Uuid) (forwarded : Option Bytes) (addr : IpAddr)
      → web.from_utf8 (web.info.to_string info) ≡ some (web.info.to_string info)
      → ws_handler web (encoded_info encode web.info json info) id forwarded addr
        ≡ (none, some (get_ip_group (or_else (raw_forwarded web forwarded) addr), with_id info id))
  unfolding ws_handler peer_info encoded_info
  ws_handler-encoded_info info id forwarded addr utf8 =
      rw (decode-encode (web.info.to_string info), utf8, web.info.from_slice-to_string info) refl

  -- The parameter holds the encoded information.
  connect_uri-query :
      (info : ClientInfoWithoutId) (uri : Text)
      → ReadsParameter encode query
      → NoQuery uri
      → query (connect_uri encode web.info json uri info)
        ≡ some (encoded_info encode web.info json info)
  unfolding connect_uri encoded_info
  connect_uri-query info uri reads plain = reads uri (web.info.to_string info) plain

  -- If base64 and the client's information as JSON can be read back, as can the parameter d of a
  -- URI, the given URI has no query, the room has no double entries, the channel is new, the
  -- connection is admitted, and the socket opened with the URI of `connect_uri` delivers first what
  -- the server sends on admission: that URI has the parameter, from which the server reads the
  -- client's information, and puts the client with it in the group of its address; and `connect` returns with
  -- that information under the server's identifier, and receives the greeting, which lists who is
  -- in the room, and all later messages.
  pub socket_connects :
      (limits : Limits) (s : AppState) (id : Uuid) (forwarded : Option Bytes) (addr : IpAddr)
      (tx : Sender) (info : ClientInfoWithoutId) (uri : Text)
      (connect_async : Text → Result (List Incoming)) (sends : List Send)
      (later : List WsServerMessage)
      → ReadsParameter encode query
      → NoQuery uri
      → web.from_utf8 (web.info.to_string info) ≡ some (web.info.to_string info)
      → let group = get_ip_group (or_else (raw_forwarded web forwarded) addr) in
        Distinct (room group s.tx_map)
        → ((h : Text) (j : Uuid) (d : ClientState) → member s h j ≡ some d → d.tx ≢ tx)
        → (Socket.connect limits s group (with_id info id) tx).1 ≡ joined sends
        → connect_async (connect_uri encode web.info json uri info)
          ≡ ok (map (printed json) (inbox tx sends ++ later))
        → ((d : Text) × (query (connect_uri encode web.info json uri info) ≡ some d)
            × (ws_handler web d id forwarded addr ≡ (none, some (group, with_id info id))))
          × (peers : List ClientInfo) × (Connect.connect encode web.info json connect_async uri info
              ≡ value (
                  ok (record {
                    client = with_id info id;
                    rx = WsServerMessage.hello (with_id info id) peers ∷ later;
                  })))
          × ((j : Uuid)
              → find_peer j peers ≡ Option.map (λ c. with_id c.client j) (member s group j))
  unfolding Connect.connect Connect.greeted
  socket_connects limits s id forwarded addr tx info uri connect_async sends later reads plain utf8
        distinct strangers admitted opened =
      let (peers, greeting, listed) =
        connect_greets limits s _ (with_id info id) tx sends distinct strangers admitted in
      (
        (
          encoded_info encode web.info json info,
          connect_uri-query info uri reads plain,
          ws_handler-encoded_info info id forwarded addr utf8,
        ),
        peers,
        ap (Connect.delivers json)
              (opened ∙ ap (λ ms. ok (map (printed json) (ms ++ later))) greeting)
            ∙ ap Connect.greeted (
                read_loop-printed json (WsServerMessage.hello (with_id info id) peers ∷ later)
                  (record { clients = []; messages = [] })),
        listed,
      )
