-- ===== src/Server/Delivery/Roster.antt =====
-- Who hears of an update of a peer and of its leaving.
use localsend_uyava.Prelude.{
  ℕ-Eq, Text-Eq, ◌≡◌, refl, inl, inr, [], ◌∷◌, none, some, true, ◌&&◌, not, Text, ◌==◌, nat_eq_iff,
  if◌then◌else◌, arith, Option-cases, is_some,
}
use localsend_uyava.Prelude.Dict.{
  get, insert, remove, Distinct, Distinct-insert, Distinct-remove, get-insert, get-remove,
}
use localsend_uyava.Signaling.{
  Uuid, ClientInfo, ClientInfoWithoutId, with_id, WsServerMessage, WsClientMessage,
}
use localsend_uyava.Server.State.{Sender, ClientState, Room, AppState, room}
use localsend_uyava.Server.Socket.{senders, send_all, others, dispatch, is_empty, disconnect}
use localsend_uyava.Server.Members.{member, room-none, room-some}
use localsend_uyava.Server.Delivery.{
  inbox, OwnChannel, get-others, Distinct-others, inbox-room, left_none,
}

others_lem :
    (s : AppState) (g : Text) (id : Uuid) (p : ClientState) (r : Room)
    → room g s.tx_map ≡ r
    → (j : Uuid) → get j (others id (insert id p r)) ≡ (if id == j then none else member s g j)
unfolding member
others_lem s g id p r e j =
    ground (arith, get-others id j (insert id p r), get-insert id j p r, e, nat_eq_iff id j)

-- For a peer that a room holds with a channel of its own, where no room has two entries for a
-- peer: when a peer that its room holds updates its information, each other peer of the room is
-- sent the new information once, and nobody else is sent anything.
pub inbox-dispatch_update :
    (s : AppState) (g h : Text) (peer : ClientInfo) (info : ClientInfoWithoutId) (id : Uuid)
    (c : ClientState)
    → ((i : Text) → Distinct (room i s.tx_map))
    → member s h id ≡ some c
    → OwnChannel s h id c.tx
    → inbox c.tx (dispatch s g peer (WsClientMessage.update info)).1 ≡ (
        if (g == h) && not (peer.id == id) && is_some (member s g peer.id)
        then WsServerMessage.update (with_id info peer.id) ∷ []
        else [])
unfolding dispatch member
inbox-dispatch_update s g h peer info id c distinct known own =
    elim (Option-cases (get g s.tx_map)) [
      | inl e ↦ ground (arith, e, room-none g s.tx_map e peer.id)
      | inr (r, e) ↦ elim (Option-cases (get peer.id r)) [
        | inl f ↦ ground (arith, e, f, room-some g s.tx_map r e)
        | inr (p, f) ↦
            let p' : ClientState = record p { client = info } in
            let rest = others peer.id (insert peer.id p' r) in
            ground (
              arith,
              e,
              f,
              room-some g s.tx_map r e,
              inbox-room s g h id c (WsServerMessage.update (with_id info peer.id)) known own
                  (λ j. peer.id == j) rest
                  (Distinct-others peer.id (insert peer.id p' r)
                    (Distinct-insert peer.id p' r (rw (← room-some g s.tx_map r e) (distinct g))))
                  (others_lem s g peer.id p' r (room-some g s.tx_map r e)),
            )
      ]
    ]

remove_lem :
    (s : AppState) (g : Text) (id : Uuid) (r : Room)
    → room g s.tx_map ≡ r
    → (j : Uuid) → get j (remove id r) ≡ (if id == j then none else member s g j)
unfolding member
remove_lem s g id r e j = ground (arith, get-remove id j r, e)

inbox_of_is_empty :
    (tx : Sender) (msg : WsServerMessage) (r : Room)
    → is_empty r ≡ true
    → inbox tx (send_all msg (senders r)) ≡ []
unfolding send_all senders
inbox_of_is_empty tx msg [] h = refl
inbox_of_is_empty tx msg (x ∷ r) h = cc

-- For a peer that a room holds with a channel of its own, where no room has two entries for a
-- peer: when a socket ends, each other peer of its room is told once that it left, and nobody
-- else is.
pub inbox-disconnect :
    (s : AppState) (g h : Text) (peer_id id : Uuid) (c : ClientState)
    → ((i : Text) → Distinct (room i s.tx_map))
    → member s h id ≡ some c
    → OwnChannel s h id c.tx
    → inbox c.tx (disconnect s g peer_id).1
      ≡ (if (g == h) && not (peer_id == id) then WsServerMessage.left peer_id ∷ [] else [])
unfolding disconnect
inbox-disconnect s g h peer_id id c distinct known own = elim (Option-cases (get g s.tx_map)) [
  | inl e ↦ ground (arith, e, left_none s g h id c known e)
  | inr (r, e) ↦
      let told =
        inbox-room s g h id c (WsServerMessage.left peer_id) known own (λ j. peer_id == j)
          (remove peer_id r)
          (Distinct-remove peer_id r (rw (← room-some g s.tx_map r e) (distinct g)))
          (remove_lem s g peer_id r (room-some g s.tx_map r e)) in
      ground
        (arith, e, told, inbox_of_is_empty c.tx (WsServerMessage.left peer_id) (remove peer_id r))
]
