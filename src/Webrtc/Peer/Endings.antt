-- ===== src/Webrtc/Peer/Endings.antt =====
-- How `send_offer` and `accept_offer` end.
use localsend_uyava.Prelude.{
  ◌≡◌, refl, [], ◌∷◌, Option, none, some, Bool, true, false, Text, ascii, Result, ok, err,
  if◌then◌else◌, ◌⊎◌, inl, inr, Bool-cases,
}
use localsend_uyava.Crypto.Token.{Crypto}
use localsend_uyava.Signaling.{Uuid, WsServerSdpMessage, WsClientMessage}
use localsend_uyava.Signaling.Client.{send_offer, send_answer}
use localsend_uyava.Webrtc.Messages.{RtcStatus}
use localsend_uyava.Webrtc.Peer
use localsend_uyava.Webrtc.Peer.Follow.{
  on_result, on_option, on_signal, on_exchanged, on_gather, on_remote,
}
use localsend_uyava.Webrtc.Peer.{
  Zlib, Connection, Ended, task, panicked, disconnected, Peer, new, Call,
}

-- The call has ended before the descriptions were exchanged: with an error, which no `Finished`
-- hides.
abbrev pub IsEarly : Result (Unit {0}) × Peer → Type 0
IsEarly (r, p) =
    ((e : Text) × (r ≡ err e)) × ((p.statuses ≡ []) ⊎ (p.statuses ≡ RtcStatus.sdp_exchanged ∷ []))

-- The call has ended after that. An error of the task is returned, and nothing is closed.
abbrev pub IsEnd :
    Connection → (RtcStatus → Bool) → Text → Ended → Result (Unit {0}) × Peer → Type 0
IsEnd connection listening message (task (err e)) (r, p) =
    (r ≡ err e) × (p.statuses ≡ RtcStatus.sdp_exchanged ∷ []) × (p.closed ≡ false)
IsEnd connection listening message panicked (r, p) =
    (r ≡ err message) × (p.statuses ≡ RtcStatus.sdp_exchanged ∷ []) × (p.closed ≡ false)
IsEnd connection listening message _ (r, p) =
    (r ≡ connection.close)
    × (p.statuses
        ≡ RtcStatus.sdp_exchanged
          ∷ (if listening RtcStatus.finished then RtcStatus.finished ∷ [] else []))
    × (p.closed ≡ true)

abbrev pub Ends : Connection → (RtcStatus → Bool) → Ended → Result (Unit {0}) × Peer → Type 0
Ends connection listening ended end = elim end.1.remote [
  | none ↦ IsEarly end
  | some d ↦ IsEnd connection listening (ascii "Sending error") ended end
]

abbrev pub Accepts : Connection → (RtcStatus → Bool) → Ended → Result (Unit {0}) × Peer → Type 0
Accepts connection listening ended end = elim end.1.statuses [
  | [] ↦ (e : Text) × (end.0 ≡ err e)
  | s ∷ ss ↦ IsEnd connection listening (ascii "Receiving error") ended end
]

module _ (c : Crypto) (zlib : Zlib) (connection : Connection) (listening : RtcStatus → Bool)
    (connected : Bool) where
  pub send_offer-Ends :
      (session_id : Text) (target : Uuid) (answer : Option Text) (ended : Ended)
      → Ends connection listening ended
          (Peer.send_offer c zlib connection listening connected session_id target answer ended new)
  unfolding Peer.send_offer Peer.create_peer_connection Peer.end_offer send_offer
  send_offer-Ends session_id target answer ended =
      on_result P _ new connection.new_peer_connection (λ e h. ((e, refl), inl refl))
        λ u h.
          on_result P _ new connection.create_data_channel (λ e h. ((e, refl), inl refl))
            λ u h.
              on_result P _ new connection.create_offer (λ e h. ((e, refl), inl refl))
                λ offer h.
                  on_gather c zlib connection listening connected P _ new _ offer
                    (λ e. ((e, refl), inl refl))
                    λ local.
                      on_signal c zlib connection listening connected P _ new connected _
                        (λ e. ((e, refl), inl refl))
                        (on_option P _ (offered local) (ascii "channel closed") answer
                          ((_, refl), inl refl)
                          λ remote h.
                            on_exchanged c zlib connection listening connected P _ (offered local)
                              (λ e. ((e, refl), inl refl))
                              (on_result P _ (told local) (Peer.decode_sdp c zlib remote)
                                (λ e h. ((e, refl), inr refl))
                                λ sdp h.
                                  on_result P _ (told local) (connection.read_answer sdp)
                                    (λ e h. ((e, refl), inr refl))
                                    λ description h.
                                      on_remote c zlib connection listening connected P _
                                        (told local) description (λ e. ((e, refl), inr refl))
                                        (ends ended local description)))
    where
      P : Result (Unit {0}) × Peer → Type 0
      P = Ends connection listening ended

      offered : Text → Peer
      offered local = record new {
        sent =
            WsClientMessage.offer (record {
              session_id = session_id;
              target = target;
              sdp = Peer.encode_sdp c zlib local;
            })
            ∷ [];
        callbacks = session_id ∷ [];
      }

      told : Text → Peer
      told local = record (offered local) { statuses = RtcStatus.sdp_exchanged ∷ [] }

      well :
          (local description : Text)
          → Ends connection listening disconnected (
              Peer.end_offer c zlib connection listening connected disconnected
                (record (told local) { remote = some description }))
      well local description = elim (Bool-cases (listening RtcStatus.finished)) [
        | inl h ↦ rw (h, h) (refl, refl, refl)
        | inr h ↦ rw (h, h) (refl, refl, refl)
      ]

      ends :
          (ended : Ended) (local description : Text)
          → Ends connection listening ended (
              Peer.end_offer c zlib connection listening connected ended
                (record (told local) { remote = some description }))
      ends (task (err e)) local description = (refl, refl, refl)
      ends panicked local description = (refl, refl, refl)
      ends (task (ok u)) local description = well local description
      ends disconnected local description = well local description

  pub accept_offer-Accepts :
      (offer : WsServerSdpMessage) (ended : Ended)
      → Accepts connection listening ended
          (Peer.accept_offer c zlib connection listening connected offer ended new)
  unfolding Peer.accept_offer Peer.create_peer_connection Peer.end_answer send_answer
  accept_offer-Accepts offer ended =
      on_result P _ new connection.new_peer_connection (λ e h. (e, refl))
        λ u h.
          on_result P _ new (Peer.decode_sdp c zlib offer.sdp) (λ e h. (e, refl))
            λ sdp h.
              on_result P _ new (connection.read_offer sdp) (λ e h. (e, refl))
                λ remote h.
                  on_remote c zlib connection listening connected P _ new remote (λ e. (e, refl))
                    (on_result P _ (described remote) (connection.create_answer remote)
                      (λ e h. (e, refl))
                      λ answer h.
                        on_gather c zlib connection listening connected P _ (described remote) _
                          answer (λ e. (e, refl))
                          λ local.
                            on_signal c zlib connection listening connected P _ (described remote)
                              connected _ (λ e. (e, refl))
                              (on_exchanged c zlib connection listening connected P _
                                (answered remote local) (λ e. (e, refl)) (ends ended remote local)))
    where
      P : Result (Unit {0}) × Peer → Type 0
      P = Accepts connection listening ended

      described : Text → Peer
      described remote = record new { remote = some remote }

      answered : Text → Text → Peer
      answered remote local = record (described remote) {
        sent =
            WsClientMessage.answer (record {
              session_id = offer.session_id;
              target = offer.peer.id;
              sdp = Peer.encode_sdp c zlib local;
            })
            ∷ [];
      }

      last : Ended → Text → Text → Result (Unit {0}) × Peer
      last ended remote local =
          Peer.end_answer c zlib connection listening connected ended
            (record (answered remote local) { statuses = RtcStatus.sdp_exchanged ∷ [] })

      well :
          (remote local : Text)
          → Accepts connection listening disconnected (last disconnected remote local)
      well remote local = elim (Bool-cases (listening RtcStatus.finished)) [
        | inl h ↦ rw (h, h) (refl, refl, refl)
        | inr h ↦ rw (h, h) (refl, refl, refl)
      ]

      ends :
          (ended : Ended) (remote local : Text)
          → Accepts connection listening ended (last ended remote local)
      ends (task (err e)) remote local = (refl, refl, refl)
      ends panicked remote local = (refl, refl, refl)
      ends (task (ok u)) remote local = well remote local
      ends disconnected remote local = well remote local

-- A call of `send_offer` and one of `accept_offer`, whatever the connection and the signaling
-- server do. Once the descriptions are exchanged (which `send_offer` knows when it has set the
-- answer, and `accept_offer` when it has sent its answer and told its caller), each ends as its
-- task does: it returns the error of the task, or that the task panicked, without a further status
-- and without closing the connection; where the task has ended well or the connection is gone, it
-- reports that it has finished, if anybody listens, and closes the connection. An end before that
-- is an error, and is not reported as finished.
pub calls_end :
    (c : Crypto) (zlib : Zlib) (connection : Connection) (listening : RtcStatus → Bool)
    (connected : Bool) (session_id : Text) (target : Uuid) (answer : Option Text)
    (offer : WsServerSdpMessage) (ended : Ended)
    → Ends connection listening ended
        (Peer.send_offer c zlib connection listening connected session_id target answer ended new)
      × Accepts connection listening ended
          (Peer.accept_offer c zlib connection listening connected offer ended new)
calls_end c zlib connection listening connected session_id target answer offer ended = (
  send_offer-Ends c zlib connection listening connected session_id target answer ended,
  accept_offer-Accepts c zlib connection listening connected offer ended,
)
