-- ===== src/Webrtc/Peer/Follow.antt =====
-- How `send_offer` and `accept_offer` go on from each of their steps.
use localsend_uyava.Prelude.{
  ◌≡◌, refl, [], ◌∷◌, ◌++◌, Option, none, some, Bool, true, false, Text, ascii, Result, ok, err,
  continue, inl, inr, Bool-cases,
}
use localsend_uyava.Crypto.Token.{Crypto}
use localsend_uyava.Signaling.{WsClientMessage}
use localsend_uyava.Signaling.Client.{send}
use localsend_uyava.Webrtc.Messages.{RtcStatus}
use localsend_uyava.Webrtc.Peer
use localsend_uyava.Webrtc.Peer.{
  Zlib, Connection, Ended, task, panicked, disconnected, Peer, new, Call,
}

-- To follow a call through its `?`s: a property of all its ends.
module _ {A B : Type 0} (P : Result B × Peer → Type 0) (f : A → Call B) (p : Peer) where
  pub on_result :
      (r : Result A)
      → ((e : Text) → r ≡ err e → P (err e, p))
      → ((a : A) → r ≡ ok a → P (f a p))
      → P (continue (r, p) f)
  on_result (ok a) failed works = works a refl
  on_result (err e) failed works = failed e refl

  pub on_option :
      (e : Text) (o : Option A)
      → P (err e, p)
      → ((a : A) → o ≡ some a → P (f a p))
      → P (continue (Peer.of_option e o p) f)
  on_option e none failed works = failed
  on_option e (some a) failed works = works a refl

module _ (c : Crypto) (zlib : Zlib) (connection : Connection) (listening : RtcStatus → Bool)
    (connected : Bool) where
  pub on_signal :
      {B : Type 0} (P : Result B × Peer → Type 0) (f : Unit {0} → Call B) (p : Peer) (b : Bool)
      (m : WsClientMessage)
      → ((e : Text) → P (err e, p))
      → P (f tt (record p { sent = p.sent ++ m ∷ [] }))
      → P (continue (Peer.signal c zlib connection listening connected (send b m) p) f)
  unfolding send
  on_signal P f p true m failed works = works
  on_signal P f p false m failed works = failed (ascii "channel closed")

  pub on_exchanged :
      {B : Type 0} (P : Result B × Peer → Type 0) (f : Unit {0} → Call B) (p : Peer)
      → ((e : Text) → P (err e, record p { closed = true }))
      → P (f tt (record p { statuses = p.statuses ++ RtcStatus.sdp_exchanged ∷ [] }))
      → P (continue (Peer.exchanged c zlib connection listening connected p) f)
  unfolding Peer.exchanged
  on_exchanged P f p failed works = elim (Bool-cases (listening RtcStatus.sdp_exchanged)) [
    | inl h ↦ rw h works
    | inr h ↦ rw h (closes connection.close)
  ]
    where
      closes :
          (r : Result (Unit {0}))
          → P (
              continue
                (continue
                  (r, record p { closed = true })
                  (λ u p'. (err (ascii "channel closed"), p')))
                f)
      closes (ok u) = failed (ascii "channel closed")
      closes (err e) = failed e

  pub on_gather :
      {B : Type 0} (P : Result B × Peer → Type 0) (f : Text → Call B) (p : Peer)
      (message description : Text)
      → ((e : Text) → P (err e, p))
      → ((local_description : Text) → P (f local_description p))
      → P (continue (Peer.gather c zlib connection listening connected message description p) f)
  unfolding Peer.gather
  on_gather P f p message description failed works =
      gathers (connection.set_local_description description)
        (connection.local_description description)
    where
      gathers :
          (r : Result (Unit {0})) (o : Option Text)
          → P (continue (continue (r, p) (λ u. Peer.of_option message o)) f)
      gathers (ok u) (some d) = works d
      gathers (ok u) none = failed message
      gathers (err e) o = failed e

  pub on_remote :
      {B : Type 0} (P : Result B × Peer → Type 0) (f : Unit {0} → Call B) (p : Peer) (sdp : Text)
      → ((e : Text) → P (err e, p))
      → P (f tt (record p { remote = some sdp }))
      → P (continue (Peer.set_remote_description c zlib connection listening connected sdp p) f)
  unfolding Peer.set_remote_description
  on_remote P f p sdp failed works = sets (connection.set_remote_description sdp)
    where
      sets :
          (r : Result (Unit {0}))
          → P (continue (continue (r, p) (λ u p'. (ok tt, record p' { remote = some sdp }))) f)
      sets (ok u) = works
      sets (err e) = failed e
