-- ===== src/Signaling/Connect.antt =====
-- core/src/webrtc/signaling.rs: `SignalingConnection::connect`.
pub mod Greeting
mod Tests
use localsend_uyava.Prelude.{List, [], ◌∷◌, ◌++◌, Bytes, Text, ascii, Result, ok, err}
use localsend_uyava.Model.{Codec}
use localsend_uyava.Crypto.Token.{Outcome, value, panic}
use localsend_uyava.Signaling.{ClientInfo, ClientInfoWithoutId, WsServerMessage}
use localsend_uyava.Signaling.Client.{Incoming, Read, read_loop}

-- `rx` is what the receiver will give.
pub record SignalingConnection : Type 0 where
  pub client : ClientInfo
  pub rx : List WsServerMessage

-- `client_rx.recv().await.unwrap()`: without a hello, the socket ends and the call panics.
unfoldable pub greeted : Read → Outcome (Result SignalingConnection)
greeted read = elim read.clients [
  | [] ↦ panic
  | client ∷ clients ↦ value (ok (record { client = client; rx = read.messages }))
]

abbrev pub delivers :
    Codec WsServerMessage → Result (List Incoming) → Outcome (Result SignalingConnection)
delivers json (ok frames) = greeted (read_loop json frames (record { clients = []; messages = [] }))
delivers json (err e) = value (err e)

-- `encode` is url-safe base64.
module _ (encode : Bytes → Text) (info_json : Codec ClientInfoWithoutId)
    (json : Codec WsServerMessage) where
  unfoldable pub encoded_info : ClientInfoWithoutId → Text
  encoded_info info = encode (info_json.to_string info)

  unfoldable pub connect_uri : Text → ClientInfoWithoutId → Text
  unfolding encoded_info
  connect_uri uri info = uri ++ (ascii "?d=" ++ encoded_info info)

  -- `connect_async` opens the socket, and gives what it will deliver.
  unfoldable pub connect :
      (Text → Result (List Incoming))
      → Text
      → ClientInfoWithoutId
      → Outcome (Result SignalingConnection)
  unfolding connect_uri greeted
  connect connect_async uri info = delivers json (connect_async (connect_uri uri info))
