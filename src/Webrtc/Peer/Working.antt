-- ===== src/Webrtc/Peer/Working.antt =====
-- What `send_offer` and `accept_offer` come to where the connection works.
use localsend_uyava.Prelude.{
  ◌≡◌, refl, [], ◌∷◌, some, Bool, true, false, Text, ok, err, Bool-cases, inl, inr, ℕ-Eq, Text-Eq,
}
use localsend_uyava.Prelude.Dict.{}
use localsend_uyava.Crypto.Token.{Crypto}
use localsend_uyava.Crypto.Token.RoundTrip.{}
use localsend_uyava.Signaling.{Uuid, WsServerSdpMessage, WsClientMessage}
use localsend_uyava.Signaling.Client
use localsend_uyava.Signaling.Client.{started, received, added, run}
use localsend_uyava.Signaling.Listener.{}
use localsend_uyava.Server.State.{}
use localsend_uyava.Server.System.{}
use localsend_uyava.Server.System.Sound.{}
use localsend_uyava.Server.Socket.{}
use localsend_uyava.Server.Members.{}
use localsend_uyava.Server.Delivery.{}
use localsend_uyava.Server.Delivery.Relay.{}
use localsend_uyava.Webrtc.Messages.{RtcStatus}
use localsend_uyava.Webrtc.Peer
use localsend_uyava.Webrtc.Peer.{
  Zlib, Connection, Ended, task, panicked, disconnected, Peer, new, rx_answer,
}

-- One side of the exchange: what its connection and its caller do, and the descriptions that come
-- of it. `own` is the offer or the answer, `local` is that with its candidates.
pub record Side : Type 0 where
  pub connection : Connection
  pub listening : RtcStatus → Bool
  pub ended : Ended
  pub own : Text
  pub local : Text
  pub remote : Text

-- The connection works, and so does the caller's end of the status channel.
abbrev pub IsOffering : Side → Text → Type 0
IsOffering side other =
    (side.connection.new_peer_connection ≡ ok tt)
    × (side.connection.create_data_channel ≡ ok tt)
    × (side.connection.create_offer ≡ ok side.own)
    × (side.connection.set_local_description side.own ≡ ok tt)
    × (side.connection.local_description side.own ≡ some side.local)
    × (side.connection.read_answer other ≡ ok side.remote)
    × (side.connection.set_remote_description side.remote ≡ ok tt)
    × (side.listening RtcStatus.sdp_exchanged ≡ true)

abbrev pub IsAnswering : Side → Text → Type 0
IsAnswering side other =
    (side.connection.new_peer_connection ≡ ok tt)
    × (side.connection.read_offer other ≡ ok side.remote)
    × (side.connection.set_remote_description side.remote ≡ ok tt)
    × (side.connection.create_answer side.remote ≡ ok side.own)
    × (side.connection.set_local_description side.own ≡ ok tt)
    × (side.connection.local_description side.own ≡ some side.local)
    × (side.listening RtcStatus.sdp_exchanged ≡ true)

module _ (c : Crypto) (zlib : Zlib) (sdp : Text)
    (zlib_law : zlib.decompress (zlib.compress sdp) ≡ ok sdp)
    (base64_law : c.decode (c.encode (zlib.compress sdp)) ≡ ok (zlib.compress sdp)) where
  decode_sdp-encode_sdp : Peer.decode_sdp c zlib (Peer.encode_sdp c zlib sdp) ≡ ok sdp
  unfolding Peer.encode_sdp Peer.decode_sdp
  decode_sdp-encode_sdp = rw (base64_law, zlib_law) refl

  pub send_offer_reaches :
      (session_id : Text) (target : Uuid) (side : Side)
      → IsOffering side sdp
      → Peer.send_offer c zlib side.connection side.listening true session_id target
          (some (Peer.encode_sdp c zlib sdp))
          side.ended
          new
        ≡ Peer.end_offer c zlib side.connection side.listening true side.ended (record {
          statuses = RtcStatus.sdp_exchanged ∷ [];
          sent =
              WsClientMessage.offer (record {
                session_id = session_id;
                target = target;
                sdp = Peer.encode_sdp c zlib side.local;
              })
              ∷ [];
          callbacks = session_id ∷ [];
          remote = some side.remote;
          channel_closed = false;
          closed = false;
        })
  unfolding Peer.send_offer Peer.create_peer_connection Peer.gather Client.send_offer Peer.exchanged
      Peer.set_remote_description
  send_offer_reaches session_id target side
        (made, opened, offered, set, gathered, read, described, heard) =
      rw (made, opened, offered, set, gathered, heard, decode_sdp-encode_sdp, read, described) refl

  pub accept_offer_reaches :
      (offer : WsServerSdpMessage) (side : Side)
      → offer.sdp ≡ Peer.encode_sdp c zlib sdp
      → IsAnswering side sdp
      → Peer.accept_offer c zlib side.connection side.listening true offer side.ended new
        ≡ Peer.end_answer c zlib side.connection side.listening true side.ended (record {
          statuses = RtcStatus.sdp_exchanged ∷ [];
          sent =
              WsClientMessage.answer (record {
                session_id = offer.session_id;
                target = offer.peer.id;
                sdp = Peer.encode_sdp c zlib side.local;
              })
              ∷ [];
          callbacks = [];
          remote = some side.remote;
          channel_closed = false;
          closed = false;
        })
  unfolding Peer.accept_offer Peer.create_peer_connection Peer.gather Client.send_answer
      Peer.exchanged Peer.set_remote_description
  accept_offer_reaches offer side same (made, read, described, answered, set, gathered, heard) =
      rw (same, made, decode_sdp-encode_sdp, read, described, answered, set, gathered, heard) refl

-- What the end of a call leaves as it is.
abbrev pub Same : Peer → Peer → Type 0
Same p q = (p.sent ≡ q.sent) × (p.callbacks ≡ q.callbacks) × (p.remote ≡ q.remote)

module _ (c : Crypto) (zlib : Zlib) (connection : Connection) (listening : RtcStatus → Bool) where
  tell-Same :
      (p : Peer) → Same (Peer.tell c zlib connection listening true RtcStatus.finished p).1 p
  unfolding Peer.tell
  tell-Same p = elim (Bool-cases (listening RtcStatus.finished)) [
    | inl h ↦ rw h (refl, refl, refl)
    | inr h ↦ rw h (refl, refl, refl)
  ]

  pub end_offer-Same :
      (ended : Ended) (p : Peer)
      → Same (Peer.end_offer c zlib connection listening true ended p).1 p
  unfolding Peer.end_offer
  end_offer-Same (task (ok u)) p = tell-Same p
  end_offer-Same (task (err e)) p = (refl, refl, refl)
  end_offer-Same panicked p = (refl, refl, refl)
  end_offer-Same disconnected p = tell-Same p

  pub end_answer-Same :
      (ended : Ended) (p : Peer)
      → Same (Peer.end_answer c zlib connection listening true ended p).1 p
  unfolding Peer.end_answer
  end_answer-Same (task (ok u)) p = tell-Same p
  end_answer-Same (task (err e)) p = (refl, refl, refl)
  end_answer-Same panicked p = (refl, refl, refl)
  end_answer-Same disconnected p = tell-Same p
