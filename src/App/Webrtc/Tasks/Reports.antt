-- ===== src/App/Webrtc/Tasks/Reports.antt =====
-- The last status of a transfer.
use localsend_uyava.Prelude.{
  ◌≡◌, refl, List, [], ◌∷◌, ◌++◌, Option, none, some, Bool, true, false, Bytes, Text, Result, ok,
  err, ◌⊎◌, inl, inr,
}
use localsend_uyava.Model.{FileDto}
use localsend_uyava.Crypto.Token.{Crypto, VerifyingTokenKey}
use localsend_uyava.Crypto.Keys.{KeyFormats, parse_public_key}
use localsend_uyava.Signaling.{Uuid, WsServerSdpMessage}
use localsend_uyava.Webrtc.Messages.{Json, PinConfig, RtcStatus, RtcSendFileResponse}
use localsend_uyava.Webrtc.Io.{Effect, Io}
use localsend_uyava.Webrtc.Transfer.{RtcFile}
use localsend_uyava.Webrtc.Handshake.Sending.{send_task}
use localsend_uyava.Webrtc.Handshake.Accepting.{receive_task}
use localsend_uyava.Webrtc.Peer.{Zlib, Connection, Ended, task, panicked, disconnected, Peer}
use localsend_uyava.Webrtc.Peer.Endings.{
  Ends, Accepts, IsEnd, send_offer-Ends, accept_offer-Accepts,
}
use localsend_uyava.App.Webrtc.{ExpectingPublicKey, parse_keys}
use localsend_uyava.App.Webrtc.Tasks
use localsend_uyava.App.Webrtc.Tasks.{report, or_task}

abbrev pub IsWell : Ended → Type 0
IsWell (task (ok u)) = Unit
IsWell disconnected = Unit
IsWell ended = ⊥

-- The last status is an error, or it says that the transfer has finished, and the task has ended
-- well or the connection is gone.
abbrev pub EndsWith : Ended → List RtcStatus → Type 0
EndsWith ended statuses =
    (before : List RtcStatus) × (last : RtcStatus) × (statuses ≡ before ++ last ∷ [])
    × (((e : Text) × (last ≡ RtcStatus.error e)) ⊎ ((last ≡ RtcStatus.finished) × IsWell ended))

abbrev pub always : RtcStatus → Bool
always s = true

IsEnd-EndsWith :
    (connection : Connection) (message : Text) (ended : Ended) (u : Unit {0}) (p : Peer)
    → IsEnd connection always message ended (ok u, p)
    → EndsWith ended p.statuses
IsEnd-EndsWith connection message (task (err e)) u p (h, told, closed) = cc
IsEnd-EndsWith connection message panicked u p (h, told, closed) = cc
IsEnd-EndsWith connection message (task (ok v)) u p (h, told, closed) =
    (RtcStatus.sdp_exchanged ∷ [], RtcStatus.finished, told, inr (refl, tt))
IsEnd-EndsWith connection message disconnected u p (h, told, closed) =
    (RtcStatus.sdp_exchanged ∷ [], RtcStatus.finished, told, inr (refl, tt))

Ends-EndsWith :
    (connection : Connection) (ended : Ended) (r : Result (Unit {0}) × Peer)
    → Ends connection always ended r
    → EndsWith ended (report always r)
unfolding report
Ends-EndsWith connection ended (err e, p) h = (p.statuses, RtcStatus.error e, refl, inl (e, refl))
Ends-EndsWith connection ended (ok u, p) h = go p.remote h
  where
    go :
        (o : Option Text)
        → Ends connection always ended (ok u, record p { remote = o })
        → EndsWith ended p.statuses
    go none ((m, failed), early) = cc
    go (some d) end = IsEnd-EndsWith connection _ ended u (record p { remote = some d }) end

Accepts-EndsWith :
    (connection : Connection) (ended : Ended) (r : Result (Unit {0}) × Peer)
    → Accepts connection always ended r
    → EndsWith ended (report always r)
unfolding report
Accepts-EndsWith connection ended (err e, p) h =
    (p.statuses, RtcStatus.error e, refl, inl (e, refl))
Accepts-EndsWith connection ended (ok u, p) h = go p.statuses h
  where
    go :
        (statuses : List RtcStatus)
        → Accepts connection always ended (ok u, record p { statuses = statuses })
        → EndsWith ended statuses
    go [] (m, failed) = cc
    go (s ∷ ss) end = IsEnd-EndsWith connection _ ended u (record p { statuses = s ∷ ss }) end

module _ (c : Crypto) (keys : KeyFormats c) (json : Json) (zlib : Zlib) (connection : Connection)
    (connected : Bool) (alive : List Effect → Effect → Bool) (other : Option Ended)
    (private_key : Text) (expecting : Option ExpectingPublicKey) (signing_key : c.SigningKey)
    (expecting_key : Option VerifyingTokenKey)
    (parsed : parse_keys c keys private_key expecting ≡ ok (signing_key, expecting_key)) where
  send_offer-EndsWith :
      (session_id : Text) (target : Uuid) (answer : Option Text) (opened : Bool)
      (local_nonce : Bytes) (pin : Option PinConfig) (files : List FileDto) (sending : List RtcFile)
      (io : Io)
      → (statuses : List RtcStatus) × (Tasks.send_offer c keys json zlib connection always connected
            alive other session_id target answer opened local_nonce private_key expecting pin files
            sending io
          ≡ ok statuses)
        × EndsWith
            (or_task other
              (send_task json alive c
                (parse_public_key c keys)
                opened
                local_nonce
                signing_key
                expecting_key
                pin
                files
                sending
                (some false)
                io).0)
            statuses
  unfolding Tasks.send_offer
  send_offer-EndsWith session_id target answer opened local_nonce pin files sending io = (
    _,
    rw parsed refl,
    Ends-EndsWith connection _ _
        (send_offer-Ends c zlib connection always connected session_id target answer _),
  )

  accept_offer-EndsWith :
      (offer : WsServerSdpMessage) (opened : Bool) (local_nonce : Bytes) (fresh : Text → Text)
      (pin : Option PinConfig) (selected : Option (Option (List Text)))
      (results : List RtcSendFileResponse) (io : Io)
      → (statuses : List RtcStatus) × (Tasks.accept_offer c keys json zlib connection always
            connected alive other offer opened local_nonce fresh private_key expecting pin selected
            results io
          ≡ ok statuses)
        × EndsWith
            (or_task other
              (receive_task json alive c opened local_nonce fresh signing_key expecting_key pin
                selected results io).0)
            statuses
  unfolding Tasks.accept_offer
  accept_offer-EndsWith offer opened local_nonce fresh pin selected results io = (
    _,
    rw parsed refl,
    Accepts-EndsWith connection _ _
        (accept_offer-Accepts c zlib connection always connected offer _),
  )

-- Where the keys can be parsed and the application takes every status: `send_offer` and
-- `accept_offer` start a task, and the last status of each, besides those that come from its data
-- channel, is an error, or it is `Finished` and the task of the data channel has ended well or the
-- connection is gone. So no failure is silent and no failed task looks finished.
pub tasks_report :
    (c : Crypto) (keys : KeyFormats c) (json : Json) (zlib : Zlib) (connection : Connection)
    (connected : Bool) (alive : List Effect → Effect → Bool) (other : Option Ended)
    (private_key : Text) (expecting : Option ExpectingPublicKey) (signing_key : c.SigningKey)
    (expecting_key : Option VerifyingTokenKey) (session_id : Text) (target : Uuid)
    (answer : Option Text) (offer : WsServerSdpMessage) (opened : Bool) (local_nonce : Bytes)
    (fresh : Text → Text) (pin : Option PinConfig) (files : List FileDto) (sending : List RtcFile)
    (selected : Option (Option (List Text))) (results : List RtcSendFileResponse) (io : Io)
    → parse_keys c keys private_key expecting ≡ ok (signing_key, expecting_key)
    → ((statuses : List RtcStatus) × (Tasks.send_offer c keys json zlib connection always connected
            alive other session_id target answer opened local_nonce private_key expecting pin files
            sending io
          ≡ ok statuses)
        × EndsWith
            (or_task other
              (send_task json alive c
                (parse_public_key c keys)
                opened
                local_nonce
                signing_key
                expecting_key
                pin
                files
                sending
                (some false)
                io).0)
            statuses)
      × ((statuses : List RtcStatus) × (Tasks.accept_offer c keys json zlib connection always
              connected alive other offer opened local_nonce fresh private_key expecting pin
              selected results io
            ≡ ok statuses)
          × EndsWith
              (or_task other
                (receive_task json alive c opened local_nonce fresh signing_key expecting_key pin
                  selected results io).0)
              statuses)
tasks_report c keys json zlib connection connected alive other private_key expecting signing_key
      expecting_key session_id target answer offer opened local_nonce fresh pin files sending
      selected results io parsed =
    (
      send_offer-EndsWith c keys json zlib connection connected alive other private_key expecting
          signing_key expecting_key parsed session_id target answer opened local_nonce pin files
          sending io,
      accept_offer-EndsWith c keys json zlib connection connected alive other private_key expecting
          signing_key expecting_key parsed offer opened local_nonce fresh pin selected results io,
    )
