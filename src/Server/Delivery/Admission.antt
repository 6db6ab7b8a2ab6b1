-- ===== src/Server/Delivery/Admission.antt =====
-- Who hears of a new connection, and what the connection hears.
use localsend_uyava.Prelude.{
  ℕ-Eq, Text-Eq, ◌≡◌, refl, ◌∙◌, inl, inr, ◌≢◌, List, [], ◌∷◌, Option, none, some, false, Text,
  ◌==◌, nat_eq_iff, if◌then◌else◌, arith, Option-cases,
}
use mathlib.Core.Option
use localsend_uyava.Prelude.Dict.{get, Distinct}
use localsend_uyava.Signaling.{Uuid, ClientInfo, with_id, WsServerMessage}
use localsend_uyava.Server.State.{Limits, Sender, ClientState, Room, AppState, Send, room}
use localsend_uyava.Server.Socket.{senders, infos, send_all, connect, limit_reached, joined}
use localsend_uyava.Server.Members.{member}
use localsend_uyava.Server.Delivery.{inbox, inbox-append, OwnChannel, inbox-send_all, inbox-room}

room_lem : (s : AppState) (g : Text) (j : Uuid) → get j (room g s.tx_map) ≡ member s g j
unfolding member
room_lem s g j = refl

-- For a peer that a room holds with a channel of its own, other than the new one, where no room
-- has two entries for a peer: when a connection is admitted, each peer that was in its room is
-- told once that it joined, and nobody else is told anything; when it is refused, nobody is.
pub inbox-connect :
    (limits : Limits) (s : AppState) (g h : Text) (peer : ClientInfo) (tx : Sender) (id : Uuid)
    (c : ClientState)
    → ((i : Text) → Distinct (room i s.tx_map))
    → member s h id ≡ some c
    → OwnChannel s h id c.tx
    → c.tx ≢ tx
    → inbox c.tx (elim (connect limits s g peer tx).1 [ limit_reached ↦ [] | joined sends ↦ sends ])
      ≡ elim (connect limits s g peer tx).1 [
        | limit_reached ↦ []
        | joined sends ↦ if g == h then WsServerMessage.join peer ∷ [] else []
      ]
unfolding connect
inbox-connect limits s g h peer tx id c distinct known own other =
    let r : Room = room g s.tx_map in
    let told =
      inbox-room s g h id c (WsServerMessage.join peer) known own (λ j. false) r (distinct g)
        (λ j. room_lem s g j) in
    let hello : List Send = (tx, WsServerMessage.hello peer (infos r)) ∷ [] in
    ground (
      arith,
      told,
      nat_eq_iff tx c.tx,
      inbox-append c.tx (send_all (WsServerMessage.join peer) (senders r)) hello,
    )

pub find_peer : Uuid → List ClientInfo → Option ClientInfo
find_peer id [] = none
find_peer id (p ∷ ps) = if p.id == id then some p else find_peer id ps

find_peer-infos :
    (id : Uuid) (r : Room)
    → find_peer id (infos r) ≡ Option.map (λ c. with_id c.client id) (get id r)
unfolding find_peer infos get
find_peer-infos id [] = refl
find_peer-infos id ((k, c) ∷ r) = ground (arith, nat_eq_iff k id, find_peer-infos id r)

inbox_stranger :
    (s : AppState) (g : Text) (tx : Sender) (msg : WsServerMessage)
    → Distinct (room g s.tx_map)
    → ((h : Text) (j : Uuid) (d : ClientState) → member s h j ≡ some d → d.tx ≢ tx)
    → inbox tx (send_all msg (senders (room g s.tx_map))) ≡ []
unfolding member
inbox_stranger s g tx msg d new =
    inbox-send_all msg tx 0 (room g s.tx_map) d (λ j c e k. absurd (new g j c e k))
    ∙ elim (Option-cases (get 0 (room g s.tx_map))) [
      | inl e ↦ ground (arith, e)
      | inr (c, e) ↦ ground (arith, e, nat_eq_iff c.tx tx, new g 0 c e)
    ]

-- A connection that is admitted to a room without double entries, on a channel that no peer has,
-- is greeted once, and the greeting lists every peer that the room held and no other.
pub connect_greets :
    (limits : Limits) (s : AppState) (g : Text) (peer : ClientInfo) (tx : Sender)
    (sends : List Send)
    → Distinct (room g s.tx_map)
    → ((h : Text) (j : Uuid) (d : ClientState) → member s h j ≡ some d → d.tx ≢ tx)
    → (connect limits s g peer tx).1 ≡ joined sends
    → (peers : List ClientInfo) × (inbox tx sends ≡ WsServerMessage.hello peer peers ∷ [])
      × ((id : Uuid) → find_peer id peers ≡ Option.map (λ c. with_id c.client id) (member s g id))
unfolding connect member
connect_greets limits s g peer tx sends d new e =
    let r : Room = room g s.tx_map in
    let hello : List Send = (tx, WsServerMessage.hello peer (infos r)) ∷ [] in
    (
      infos r,
      ground (
        arith,
        inbox_stranger s g tx (WsServerMessage.join peer) d new,
        nat_eq_iff tx tx,
        inbox-append tx (send_all (WsServerMessage.join peer) (senders r)) hello,
      ),
      λ id. find_peer-infos id r,
    )
