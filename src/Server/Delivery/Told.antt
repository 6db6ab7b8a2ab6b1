-- ===== src/Server/Delivery/Told.antt =====
-- Who is told of the changes of a room.
use localsend_uyava.Prelude.{
  ℕ-Eq, Text-Eq, ◌≡◌, ◌≢◌, [], ◌∷◌, some, ◌&&◌, not, Text, ◌==◌, if◌then◌else◌, is_some,
}
use localsend_uyava.Prelude.Dict.{Distinct}
use localsend_uyava.Signaling.{
  Uuid, ClientInfo, ClientInfoWithoutId, with_id, WsServerMessage, WsClientMessage,
}
use localsend_uyava.Server.State.{Limits, Sender, ClientState, AppState, room}
use localsend_uyava.Server.Socket.{connect, limit_reached, joined, dispatch, disconnect}
use localsend_uyava.Server.Members.{member}
use localsend_uyava.Server.Delivery.{inbox, OwnChannel}
use localsend_uyava.Server.Delivery.Roster.{inbox-dispatch_update, inbox-disconnect}
use localsend_uyava.Server.Delivery.Admission.{inbox-connect}

-- For a peer that a room holds with a channel of its own, other than that of a new connection,
-- where no room has two entries for a peer: when a connection is admitted to its room, it is told
-- once that the new peer joined; when another peer that its room holds updates its information, it
-- is sent that once; when the socket of another peer of its room ends, it is told once that this
-- peer left; and it is told nothing in all other cases.
pub inbox_lem :
    (limits : Limits) (s : AppState) (g h : Text) (peer : ClientInfo) (info : ClientInfoWithoutId)
    (tx : Sender) (id : Uuid) (c : ClientState)
    → ((i : Text) → Distinct (room i s.tx_map))
    → member s h id ≡ some c
    → OwnChannel s h id c.tx
    → c.tx ≢ tx
    → (inbox c.tx
          (elim (connect limits s g peer tx).1 [ limit_reached ↦ [] | joined sends ↦ sends ])
        ≡ elim (connect limits s g peer tx).1 [
          | limit_reached ↦ []
          | joined sends ↦ if g == h then WsServerMessage.join peer ∷ [] else []
        ])
      × (inbox c.tx (dispatch s g peer (WsClientMessage.update info)).1 ≡ (
          if (g == h) && not (peer.id == id) && is_some (member s g peer.id)
          then WsServerMessage.update (with_id info peer.id) ∷ []
          else []))
      × (inbox c.tx (disconnect s g peer.id).1
          ≡ (if (g == h) && not (peer.id == id) then WsServerMessage.left peer.id ∷ [] else []))
inbox_lem limits s g h peer info tx id c distinct known own other = (
  inbox-connect limits s g h peer tx id c distinct known own other,
  inbox-dispatch_update s g h peer info id c distinct known own,
  inbox-disconnect s g h peer.id id c distinct known own,
)
