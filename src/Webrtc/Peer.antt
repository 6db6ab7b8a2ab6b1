-- ===== src/Webrtc/Peer.antt =====
-- core/src/webrtc/webrtc.rs: `send_offer` and `accept_offer` around their tasks: the peer
-- connection, the exchange of descriptions through the signaling server, and how the calls end.
pub mod Follow
pub mod Endings
pub mod Working
pub mod Exchange
pub mod Tests
use localsend_uyava.Prelude.{
  List, [], ◌∷◌, ◌++◌, Option, none, some, Bool, true, false, Bytes, Text, ascii, Result, ok, err,
  Act, continue, if◌then◌else◌,
}
use localsend_uyava.Crypto.Token.{Crypto}
use localsend_uyava.Signaling.{Uuid, WsServerSdpMessage, WsClientMessage}
use localsend_uyava.Signaling.Client
use localsend_uyava.Signaling.Client.{Sending}
use localsend_uyava.Webrtc.Messages.{RtcStatus}

-- The crate flate2. Writing into a vector does not fail, so that `encode_sdp` cannot panic.
pub record Zlib : Type 0 where
  pub compress : Bytes → Bytes
  pub decompress : Bytes → Result Bytes

-- An `RTCPeerConnection` of the crate webrtc: what its calls give. `local_description` is the
-- description that was set, with the candidates that were gathered; `read_offer` and `read_answer`
-- are the constructors of `RTCSessionDescription`, which parse a text.
pub record Connection : Type 0 where
  pub new_peer_connection : Result (Unit {0})
  pub create_data_channel : Result (Unit {0})
  pub create_offer : Result Text
  pub create_answer : Text → Result Text
  pub set_local_description : Text → Result (Unit {0})
  pub local_description : Text → Option Text
  pub read_offer : Text → Result Text
  pub read_answer : Text → Result Text
  pub set_remote_description : Text → Result (Unit {0})
  pub close : Result (Unit {0})

-- What ends the `select!`: the task with its result, a panic of the task, or the end of the
-- connection.
pub data Ended : Type 0 where
  task : Result (Unit {0}) → Ended
  panicked : Ended
  disconnected : Ended

-- What a call has done besides its task: the statuses that it has sent itself, what it has sent to
-- the signaling server, the sessions of its callbacks, the remote description that it has set, and
-- what it has closed.
pub record Peer : Type 0 where
  pub statuses : List RtcStatus
  pub sent : List WsClientMessage
  pub callbacks : List Text
  pub remote : Option Text
  pub channel_closed : Bool
  pub closed : Bool

abbrev pub new : Peer
new = record {
  statuses = [];
  sent = [];
  callbacks = [];
  remote = none;
  channel_closed = false;
  closed = false;
}

abbrev pub Call : Type 0 → Type 0
Call = Act Peer

infixl 5 ◌>>=◌ ◌>>◌
abbrev ◌>>=◌ : {A B : Type 0} → Call A → (A → Call B) → Call B
◌>>=◌ m f p = continue (m p) f

abbrev ◌>>◌ : {B : Type 0} → Call (Unit {0}) → Call B → Call B
m >> k = m >>= λ _. k

abbrev of_result : {A : Type 0} → Result A → Call A
of_result r p = (r, p)

-- `.ok_or_else(…)`, and a receiver whose sender is gone.
abbrev of_option : {A : Type 0} → Text → Option A → Call A
of_option e none p = (err e, p)
of_option e (some a) p = (ok a, p)

module _ (c : Crypto) (zlib : Zlib) where
  unfoldable pub encode_sdp : Text → Text
  encode_sdp s = c.encode (zlib.compress s)

  decompressed : Result Bytes → Result Text
  decompressed (ok bytes) = zlib.decompress bytes
  decompressed (err e) = err e

  unfoldable pub decode_sdp : Text → Result Text
  unfolding decompressed
  decode_sdp s = decompressed (c.decode s)

-- What the callback of `on_answer` passes on: it is called at most once.
unfoldable pub rx_answer : List (Unit {0} × WsServerSdpMessage) → Option Text
rx_answer [] = none
rx_answer ((callback, message) ∷ calls) = some message.sdp

-- `listening` says whether the caller still takes a status, and `connected` whether the signaling
-- connection is still there.
module _ (c : Crypto) (zlib : Zlib) (connection : Connection) (listening : RtcStatus → Bool)
    (connected : Bool) where
  -- A message of Signaling/Client.
  abbrev signal : Sending → Call (Unit {0})
  signal send p = let r = send p.sent in (r.0, record p { sent = r.1 })

  abbrev add_callback : Text → Call (Unit {0})
  add_callback session_id p = (ok tt, record p { callbacks = p.callbacks ++ session_id ∷ [] })

  unfoldable pub tell : RtcStatus → Call (Unit {0})
  tell s p =
      if listening s
      then (ok tt, record p { statuses = p.statuses ++ s ∷ [] })
      else (err (ascii "channel closed"), p)

  -- `let _ = …`
  abbrev attempt : Call (Unit {0}) → Call (Unit {0})
  attempt m p = (ok tt, (m p).1)

  unfoldable pub close : Call (Unit {0})
  close p = (connection.close, record p { closed = true })

  -- An error of it is only logged.
  unfoldable pub close_channel : Call (Unit {0})
  close_channel p = (ok tt, record p { channel_closed = true })

  unfoldable pub set_remote_description : Text → Call (Unit {0})
  set_remote_description sdp p =
      continue (connection.set_remote_description sdp, p)
        (λ u p'. (ok tt, record p' { remote = some sdp }))

  -- `create_peer_connection`
  unfoldable pub create_peer_connection : Call (Unit {0})
  create_peer_connection = of_result connection.new_peer_connection

  -- The local description with its candidates.
  unfoldable pub gather : Text → Text → Call Text
  gather message description = do
    of_result (connection.set_local_description description)
    of_option message (connection.local_description description)

  -- `if let Err(e) = …`: where nobody listens, the connection is closed.
  abbrev or_close : Result (Unit {0}) × Peer → Result (Unit {0}) × Peer
  or_close (ok u, p) = (ok u, p)
  or_close (err e, p) = continue (close p) (λ u p'. (err e, p'))

  unfoldable pub exchanged : Call (Unit {0})
  unfolding tell close
  exchanged p = or_close (tell RtcStatus.sdp_exchanged p)

  -- What follows on the `select!`: an error of the task is returned at once.
  unfoldable pub select : Text → Ended → Call (Unit {0})
  select message (task (ok u)) p = (ok tt, p)
  select message (task (err e)) p = (err e, p)
  select message panicked p = (err message, p)
  select message disconnected p = (ok tt, p)

  -- The end of each call, once it has started to wait for its task.
  unfoldable pub end_offer : Ended → Call (Unit {0})
  unfolding select tell close_channel close
  end_offer ended = do
    select (ascii "Sending error") ended
    attempt (tell RtcStatus.finished)
    close_channel
    close

  unfoldable pub end_answer : Ended → Call (Unit {0})
  unfolding select tell close
  end_answer ended = do
    select (ascii "Receiving error") ended
    attempt (tell RtcStatus.finished)
    close

  -- `answer` is what `rx_answer` gives, `none` where the callback is dropped.
  unfoldable pub send_offer : Text → Uuid → Option Text → Ended → Call (Unit {0})
  unfolding create_peer_connection gather encode_sdp decode_sdp exchanged set_remote_description
      end_offer
  send_offer session_id target answer ended = do
    create_peer_connection
    of_result connection.create_data_channel
    offer ← of_result connection.create_offer
    local_description ← gather (ascii "Could not generate local_description") offer
    signal (Client.send_offer connected session_id target (encode_sdp c zlib local_description))
    add_callback session_id
    remote_desc ← of_option (ascii "channel closed") answer
    exchanged
    sdp ← of_result (decode_sdp c zlib remote_desc)
    description ← of_result (connection.read_answer sdp)
    set_remote_description description
    end_offer ended

  unfoldable pub accept_offer : WsServerSdpMessage → Ended → Call (Unit {0})
  unfolding create_peer_connection gather encode_sdp decode_sdp exchanged set_remote_description
      end_answer
  accept_offer offer ended = do
    create_peer_connection
    sdp ← of_result (decode_sdp c zlib offer.sdp)
    description ← of_result (connection.read_offer sdp)
    set_remote_description description
    answer ← of_result (connection.create_answer description)
    local_description ← gather (ascii "generate local_description failed!") answer
    signal (
        Client.send_answer connected offer.session_id offer.peer.id
          (encode_sdp c zlib local_description))
    exchanged
    end_answer ended
