-- ===== src/Server/System/Presence.antt =====
-- What the rooms hold in a state that the server reaches.
use localsend_uyava.Prelude.{
  ℕ, ℕ-Eq, Text-Eq, ◌≡◌, refl, ◌∙◌, Option, none, some, Text, ◌==◌, text_eq_iff, nat_eq_iff,
  if◌then◌else◌, arith,
}
use localsend_uyava.Prelude.Dict.{get, remove, get-insert, get-remove}
use localsend_uyava.Signaling.{Uuid, ClientInfo, WsClientMessage}
use localsend_uyava.Server.State.{
  Limits, Sender, ClientState, AppState, new, room, protect_ddos_request_count, clear,
}
use localsend_uyava.Server.Socket.{dispatch, disconnect}
use localsend_uyava.Server.Members.{
  member, member-connect, member-dispatch_update, member-disconnect,
}
use localsend_uyava.Server.System.{
  Socket, System, start, FreshChannel, open_socket, Step, connects, charges, dispatches,
  disconnects, clears, Reach, begin, next,
}

-- The channel of an open socket, seen from a room.
abbrev pub channel_in : Text → Option Socket → Option Sender
channel_in g none = none
channel_in g (some k) = if k.group == g then some k.tx else none

abbrev pub tx_of : Option ClientState → Option Sender
tx_of none = none
tx_of (some c) = some c.tx

-- The rooms hold exactly the open sockets.
pub record IsPresent (y : System) : Type 0 where
  pub rooms : (g : Text) (id : Uuid) → tx_of (member y.app g id) ≡ channel_in g (get id y.sockets)
  pub named : (id : Uuid) (k : Socket) → get id y.sockets ≡ some k → k.peer.id ≡ id
  pub apart :
      (i j : Uuid) (k l : Socket)
      → get i y.sockets ≡ some k
      → get j y.sockets ≡ some l
      → k.tx ≡ l.tx
      → i ≡ j

start-IsPresent : IsPresent start
unfolding start new member room get
start-IsPresent = record { rooms = λ g id. refl; named = λ id k e. cc; apart = λ i j k l e. cc }

module _ (limits : Limits) (y : System) (g : Text) (peer : ClientInfo) (tx : Sender)
    (unused : get peer.id y.sockets ≡ none) (fresh : FreshChannel tx y) (v : IsPresent y) where
  connects-rooms :
      (h : Text) (id : Uuid)
      → tx_of (member (open_socket limits y g peer tx).app h id)
        ≡ channel_in h (get id (open_socket limits y g peer tx).sockets)
  unfolding open_socket
  connects-rooms h id = ground (
    arith,
    member-connect limits y.app g h peer id tx,
    v.rooms h id,
    get-insert peer.id id (record { group = g; peer = peer; tx = tx }) y.sockets,
    nat_eq_iff peer.id id,
    unused,
  )

  connects-named :
      (id : Uuid) (k : Socket)
      → get id (open_socket limits y g peer tx).sockets ≡ some k
      → k.peer.id ≡ id
  unfolding open_socket
  connects-named id k e = ground (
    arith,
    v.named id k,
    get-insert peer.id id (record { group = g; peer = peer; tx = tx }) y.sockets,
    nat_eq_iff peer.id id,
  )

  connects-apart :
      (i j : Uuid) (k l : Socket)
      → get i (open_socket limits y g peer tx).sockets ≡ some k
      → get j (open_socket limits y g peer tx).sockets ≡ some l
      → k.tx ≡ l.tx
      → i ≡ j
  unfolding open_socket
  connects-apart i j k l e f q = ground (
    arith,
    v.apart i j k l,
    get-insert peer.id i (record { group = g; peer = peer; tx = tx }) y.sockets,
    get-insert peer.id j (record { group = g; peer = peer; tx = tx }) y.sockets,
    nat_eq_iff peer.id i,
    nat_eq_iff peer.id j,
    fresh i k,
    fresh j l,
  )

dispatch_keeps :
    (s : AppState) (g h : Text) (peer : ClientInfo) (msg : WsClientMessage) (id : Uuid)
    → tx_of (member (dispatch s g peer msg).0 h id) ≡ tx_of (member s h id)
unfolding dispatch member
dispatch_keeps s g h peer (WsClientMessage.offer sdp) id = refl
dispatch_keeps s g h peer (WsClientMessage.answer sdp) id = refl
dispatch_keeps s g h peer (WsClientMessage.update info) id =
    ground (arith, member-dispatch_update s g h peer info id)

disconnects-rooms :
    (y : System) (id : Uuid) (k : Socket)
    → get id y.sockets ≡ some k
    → IsPresent y
    → (h : Text) (j : Uuid)
    → tx_of (member (disconnect y.app k.group k.peer.id).0 h j)
      ≡ channel_in h (get j (remove id y.sockets))
disconnects-rooms y id k e v h j = ground (
  arith,
  e,
  v.named id k e,
  v.rooms h j,
  member-disconnect y.app k.group h k.peer.id j,
  get-remove id j y.sockets,
  nat_eq_iff id j,
  nat_eq_iff k.peer.id j,
  text_eq_iff k.group h,
)

removed :
    (y : System) (id j : Uuid) (l : Socket)
    → get j (remove id y.sockets) ≡ some l
    → get j y.sockets ≡ some l
removed y id j l e = ground (arith, get-remove id j y.sockets)

charge-member :
    (y : System) (g : Text) (max : ℕ) (h : Text) (id : Uuid)
    → member
        (record y.app {
          request_count_map = (protect_ddos_request_count max y.app.request_count_map g).0;
        })
        h
        id
      ≡ member y.app h id
unfolding member
charge-member y g max h id = refl

clear-member : (s : AppState) (h : Text) (id : Uuid) → member (clear s) h id ≡ member s h id
unfolding member clear
clear-member s h id = refl

Step-IsPresent : {limits : Limits} {y z : System} → Step limits y z → IsPresent y → IsPresent z
Step-IsPresent {limits} (connects y g peer tx unused fresh) v = record {
  rooms = connects-rooms limits y g peer tx unused fresh v;
  named = connects-named limits y g peer tx unused fresh v;
  apart = connects-apart limits y g peer tx unused fresh v;
}
Step-IsPresent {limits} (charges y g) v = record {
  rooms = λ h id. rw (charge-member y g limits.max_requests h id) (v.rooms h id);
  named = v.named;
  apart = v.apart;
}
Step-IsPresent (dispatches y id k msg e) v = record {
  rooms = λ h j. dispatch_keeps y.app k.group h k.peer msg j ∙ v.rooms h j;
  named = v.named;
  apart = v.apart;
}
Step-IsPresent (disconnects y id k e) v = record {
  rooms = disconnects-rooms y id k e v;
  named = λ j l f. v.named j l (removed y id j l f);
  apart = λ i j l m p q. v.apart i j l m (removed y id i l p) (removed y id j m q);
}
Step-IsPresent (clears y) v = record {
  rooms = λ h id. rw (clear-member y.app h id) (v.rooms h id);
  named = v.named;
  apart = v.apart;
}

-- In every state that the server reaches, a room holds a peer exactly if a socket of that peer is
-- open in that IP group, and holds it with the socket's channel; identifiers name their sockets,
-- and no two open sockets share a channel.
pub Reach-IsPresent : {limits : Limits} {y : System} → Reach limits y → IsPresent y
Reach-IsPresent begin = start-IsPresent
Reach-IsPresent (next r st) = Step-IsPresent st (Reach-IsPresent r)
