-- ===== src/Server/Delivery/Relay.antt =====
-- Who receives an offer or an answer.
use localsend_uyava.Prelude.{
  ℕ-Eq, Text-Eq, ◌≡◌, inl, inr, [], ◌∷◌, some, ◌&&◌, Text, ◌==◌, text_eq_iff, nat_eq_iff,
  if◌then◌else◌, arith, Option-cases,
}
use localsend_uyava.Prelude.Dict.{get}
use localsend_uyava.Signaling.{Uuid, ClientInfo, WsClientMessage, WsClientSdpMessage}
use localsend_uyava.Server.State.{ClientState, Room, AppState}
use localsend_uyava.Server.Socket.{send_to_peer, dispatch, SdpKind, server_message}
use localsend_uyava.Server.Members.{member, room-some}
use localsend_uyava.Server.Delivery.{inbox, OwnChannel, left_none}

member-some :
    (s : AppState) (g : Text) (r : Room) (x : ClientState) (id : Uuid)
    → get g s.tx_map ≡ some r
    → get id r ≡ some x
    → member s g id ≡ some x
unfolding member
member-some s g r x id e f = rw (room-some g s.tx_map r e) f

inbox-send_to_peer :
    (s : AppState) (g h : Text) (peer : ClientInfo) (kind : SdpKind) (sdp : WsClientSdpMessage)
    (id : Uuid) (c : ClientState)
    → member s h id ≡ some c
    → OwnChannel s h id c.tx
    → inbox c.tx (send_to_peer s.tx_map g peer kind sdp)
      ≡ (if (g == h) && (sdp.target == id) then server_message kind peer sdp ∷ [] else [])
unfolding send_to_peer member
inbox-send_to_peer s g h peer kind sdp id c known own = elim (Option-cases (get g s.tx_map)) [
  | inl e ↦ ground (arith, e, left_none s g h id c known e)
  | inr (r, e) ↦ elim (Option-cases (get sdp.target r)) [
    | inl f ↦
        ground
          (arith, e, f, text_eq_iff g h, nat_eq_iff sdp.target id, room-some g s.tx_map r e, known)
    | inr (x, f) ↦ ground (
      arith,
      e,
      f,
      text_eq_iff g h,
      nat_eq_iff sdp.target id,
      nat_eq_iff x.tx c.tx,
      room-some g s.tx_map r e,
      known,
      own g sdp.target x (member-some s g r x sdp.target e f),
    )
  ]
]

abbrev pub sdp_message : SdpKind → WsClientSdpMessage → WsClientMessage
sdp_message SdpKind.offer sdp = WsClientMessage.offer sdp
sdp_message SdpKind.answer sdp = WsClientMessage.answer sdp

-- For a peer that a room holds with a channel of its own: an offer or an answer reaches it
-- exactly if it is the target and in the sender's room. What arrives names the socket's own peer
-- as its origin, whatever the message says.
pub inbox-dispatch_sdp :
    (s : AppState) (g h : Text) (peer : ClientInfo) (kind : SdpKind) (sdp : WsClientSdpMessage)
    (id : Uuid) (c : ClientState)
    → member s h id ≡ some c
    → OwnChannel s h id c.tx
    → inbox c.tx (dispatch s g peer (sdp_message kind sdp)).1
      ≡ (if (g == h) && (sdp.target == id) then server_message kind peer sdp ∷ [] else [])
unfolding dispatch
inbox-dispatch_sdp s g h peer SdpKind.offer sdp id c known own =
    inbox-send_to_peer s g h peer SdpKind.offer sdp id c known own
inbox-dispatch_sdp s g h peer SdpKind.answer sdp id c known own =
    inbox-send_to_peer s g h peer SdpKind.answer sdp id c known own
