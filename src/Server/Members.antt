-- ===== src/Server/Members.antt =====
-- The rooms as a table from an IP group and a peer to what the server holds of that peer, and what
-- each handler of Socket.antt does to the table.
use localsend_uyava.Prelude.{
  ℕ-Eq, Text-Eq, ◌≡◌, refl, inl, inr, [], ◌∷◌, Option, none, some, true, ◌&&◌, Text, ◌==◌,
  text_eq_iff, nat_eq_iff, if◌then◌else◌, arith, Option-cases,
}
use localsend_uyava.Prelude.Dict.{get, insert, remove, get-insert, get-remove}
use localsend_uyava.Signaling.{Uuid, ClientInfo, ClientInfoWithoutId, without_id, WsClientMessage}
use localsend_uyava.Server.State.{Limits, Sender, ClientState, Room, TxMap, AppState, room}
use localsend_uyava.Server.Socket.{connect, limit_reached, joined, dispatch, is_empty, disconnect}

unfoldable pub member : AppState → Text → Uuid → Option ClientState
member s group id = get id (room group s.tx_map)

pub room-insert :
    (g h : Text) (r : Room) (m : TxMap) → room h (insert g r m) ≡ (if g == h then r else room h m)
unfolding room
room-insert g h r m = ground (arith, get-insert g h r m)

pub room-remove : (g h : Text) (m : TxMap) → room h (remove g m) ≡ (if g == h then [] else room h m)
unfolding room
room-remove g h m = ground (arith, get-remove g h m)

pub room-none : (g : Text) (m : TxMap) → get g m ≡ none → (id : Uuid) → get id (room g m) ≡ none
unfolding room get
room-none g m e id = rw (e, room)

pub room-some : (g : Text) (m : TxMap) (r : Room) → get g m ≡ some r → room g m ≡ r
unfolding room
room-some g m r e = ground (arith, e)

-- A refused connection changes no room's members; an admitted one adds its peer to its own room.
pub member-connect :
    (limits : Limits) (s : AppState) (g h : Text) (peer : ClientInfo) (id : Uuid) (tx : Sender)
    → member (connect limits s g peer tx).0 h id ≡ elim (connect limits s g peer tx).1 [
      | limit_reached ↦ member s h id
      | joined sends ↦
          if (g == h) && (peer.id == id)
          then some (record { client = without_id peer; tx = tx })
          else member s h id
    ]
unfolding member connect
member-connect limits s g h peer id tx = ground (
  arith,
  text_eq_iff g h,
  nat_eq_iff peer.id id,
  room-insert g h (room g s.tx_map) s.tx_map,
  room-insert g h (insert peer.id (record { client = without_id peer; tx = tx }) (room g s.tx_map))
      s.tx_map,
  get-insert peer.id id (record { client = without_id peer; tx = tx }) (room g s.tx_map),
)

-- An update replaces what is held of its own peer, if the peer is there, and nothing else.
pub member-dispatch_update :
    (s : AppState) (g h : Text) (peer : ClientInfo) (info : ClientInfoWithoutId) (id : Uuid)
    → member (dispatch s g peer (WsClientMessage.update info)).0 h id ≡ (
        if (g == h) && (peer.id == id)
        then elim (member s h id) [ none ↦ none | some c ↦ some (record c { client = info }) ]
        else member s h id)
unfolding member dispatch
member-dispatch_update s g h peer info id = elim (Option-cases (get g s.tx_map)) [
  | inl e ↦ ground (arith, text_eq_iff g h, nat_eq_iff peer.id id, e, room-none g s.tx_map e id)
  | inr (r, e) ↦ elim (Option-cases (get peer.id r)) [
    | inl f ↦ ground (arith, text_eq_iff g h, nat_eq_iff peer.id id, e, f, room-some g s.tx_map r e)
    | inr (c, f) ↦ ground (
      arith,
      text_eq_iff g h,
      nat_eq_iff peer.id id,
      e,
      f,
      room-some g s.tx_map r e,
      room-insert g h (insert peer.id (record c { client = info }) r) s.tx_map,
      get-insert peer.id id (record c { client = info }) r,
    )
  ]
]

get_of_is_empty : (id : Uuid) (r : Room) → is_empty r ≡ true → get id r ≡ none
unfolding get
get_of_is_empty id [] h = refl
get_of_is_empty id (x ∷ r) h = cc

-- A socket that ends takes its own peer out, and nothing else.
pub member-disconnect :
    (s : AppState) (g h : Text) (peer_id id : Uuid)
    → member (disconnect s g peer_id).0 h id
      ≡ (if (g == h) && (peer_id == id) then none else member s h id)
unfolding member disconnect
member-disconnect s g h peer_id id = elim (Option-cases (get g s.tx_map)) [
  | inl e ↦ ground (arith, text_eq_iff g h, nat_eq_iff peer_id id, e, room-none g s.tx_map e id)
  | inr (r, e) ↦ ground (
    arith,
    text_eq_iff g h,
    nat_eq_iff peer_id id,
    e,
    room-some g s.tx_map r e,
    room-insert g h (remove peer_id r) s.tx_map,
    room-remove g h s.tx_map,
    get-remove peer_id id r,
    get_of_is_empty id (remove peer_id r),
  )
]

-- What the handlers do to the rooms, whatever the state: a refused connection changes no room's
-- members, and an admitted one adds its peer to its own room; an update replaces what is held of
-- its own peer, if the peer is there; a socket that ends takes its own peer out; and nothing else
-- changes.
pub member_lem :
    (limits : Limits) (s : AppState) (g h : Text) (peer : ClientInfo) (info : ClientInfoWithoutId)
    (id : Uuid) (tx : Sender)
    → (member (connect limits s g peer tx).0 h id ≡ elim (connect limits s g peer tx).1 [
      | limit_reached ↦ member s h id
      | joined sends ↦
          if (g == h) && (peer.id == id)
          then some (record { client = without_id peer; tx = tx })
          else member s h id
    ])
      × (member (dispatch s g peer (WsClientMessage.update info)).0 h id ≡ (
          if (g == h) && (peer.id == id)
          then elim (member s h id) [ none ↦ none | some c ↦ some (record c { client = info }) ]
          else member s h id))
      × (member (disconnect s g peer.id).0 h id
          ≡ (if (g == h) && (peer.id == id) then none else member s h id))
member_lem limits s g h peer info id tx = (
  member-connect limits s g h peer id tx,
  member-dispatch_update s g h peer info id,
  member-disconnect s g h peer.id id,
)
