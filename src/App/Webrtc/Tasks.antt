-- ===== src/App/Webrtc/Tasks.antt =====
-- app/rust/src/api/webrtc.rs: `LsSignalingConnection`, which starts a transfer in a task and
-- reports its error.
pub mod Reports
use localsend_uyava.Prelude.{
  List, [], ◌∷◌, ◌++◌, Option, none, some, Bool, false, Bytes, Text, Result, ok, err, ◌>>=◌,
  if◌then◌else◌,
}
use localsend_uyava.Model.{FileDto}
use localsend_uyava.Crypto.Token.{Crypto}
use localsend_uyava.Crypto.Keys.{KeyFormats, parse_public_key}
use localsend_uyava.Signaling.{Uuid, ClientInfoWithoutId, WsServerSdpMessage}
use localsend_uyava.Signaling.Client
use localsend_uyava.Signaling.Client.{Sending}
use localsend_uyava.Webrtc.Messages.{Json, PinConfig, RtcStatus, RtcSendFileResponse}
use localsend_uyava.Webrtc.Io.{Effect, Io}
use localsend_uyava.Webrtc.Transfer.{RtcFile}
use localsend_uyava.Webrtc.Handshake.Sending.{send_task}
use localsend_uyava.Webrtc.Handshake.Accepting.{receive_task}
use localsend_uyava.Webrtc.Peer
use localsend_uyava.Webrtc.Peer.{Zlib, Connection, Ended, Peer}
use localsend_uyava.App.Webrtc.{ExpectingPublicKey, parse_keys}

unfoldable pub update_info : Bool → ClientInfoWithoutId → Sending
unfolding Client.send_update
update_info alive info = Client.send_update alive info

-- `if let Err(e) = result`: the statuses that the application gets besides those of the task.
unfoldable pub report : (RtcStatus → Bool) → Result (Unit {0}) × Peer → List RtcStatus
report listening (ok u, p) = p.statuses
report listening (err e, p) =
    if listening (RtcStatus.error e) then p.statuses ++ RtcStatus.error e ∷ [] else p.statuses

-- What ends a call: its task, whose result is known, or something else.
abbrev pub or_task : Option Ended → Result (Unit {0}) → Ended
or_task none result = Ended.task result
or_task (some ended) result = ended

-- `other` is there where the task of the data channel does not come to its end.
module _ (c : Crypto) (keys : KeyFormats c) (json : Json) (zlib : Zlib) (connection : Connection)
    (listening : RtcStatus → Bool) (connected : Bool) (alive : List Effect → Effect → Bool)
    (other : Option Ended) where
  -- The task answers a request to pair with `false`.
  unfoldable pub send_offer :
      Text
      → Uuid
      → Option Text
      → Bool
      → Bytes
      → Text
      → Option ExpectingPublicKey
      → Option PinConfig
      → List FileDto
      → List RtcFile
      → Io
      → Result (List RtcStatus)
  unfolding report
  send_offer session_id target answer opened local_nonce private_key expecting pin files sending
        io =
      parse_keys c keys private_key expecting >>= λ (signing_key, expecting_key).
      let ended =
        or_task other
          (send_task json alive c (parse_public_key c keys) opened local_nonce signing_key
            expecting_key pin files sending (some false) io).0 in
      ok (
        report listening (
          Peer.send_offer c zlib connection listening connected session_id target answer ended
            Peer.new))

  -- `selected` is what the application decides about the files, and `fresh` makes their tokens.
  unfoldable pub accept_offer :
      WsServerSdpMessage
      → Bool
      → Bytes
      → (Text → Text)
      → Text
      → Option ExpectingPublicKey
      → Option PinConfig
      → Option (Option (List Text))
      → List RtcSendFileResponse
      → Io
      → Result (List RtcStatus)
  unfolding report
  accept_offer offer opened local_nonce fresh private_key expecting pin selected results io =
      parse_keys c keys private_key expecting >>= λ (signing_key, expecting_key).
      let ended =
        or_task other
          (receive_task json alive c opened local_nonce fresh signing_key expecting_key pin selected
            results io).0 in
      ok (
        report listening
          (Peer.accept_offer c zlib connection listening connected offer ended Peer.new))
