-- ===== src/Server/Delivery.antt =====
-- What each peer's channel receives of the messages of a handler. The children say it for each.
pub mod Roster
pub mod Admission
pub mod Relay
pub mod Told
use localsend_uyava.Prelude.{
  ℕ-Eq, Text-Eq, ◌≡◌, refl, ◌∙◌, inl, inr, List, [], ◌∷◌, ◌++◌, none, some, Bool, false, ◌&&◌, not,
  Text, ◌==◌, text_eq_iff, nat_eq_iff, if◌then◌else◌, arith, Option-cases,
}
use mathlib.Core.Option
use localsend_uyava.Prelude.Dict.{get, Distinct}
use localsend_uyava.Signaling.{Uuid, WsServerMessage}
use localsend_uyava.Server.State.{Sender, ClientState, Room, AppState, Send, room}
use localsend_uyava.Server.Socket.{senders, send_all, others}
use localsend_uyava.Server.Members.{member, room-none}

-- What a channel receives from a list of sends, in order.
abbrev pub inbox : Sender → List Send → List WsServerMessage
inbox tx [] = []
inbox tx ((t, msg) ∷ sends) = if t == tx then msg ∷ inbox tx sends else inbox tx sends

pub inbox-append :
    (tx : Sender) (xs ys : List Send) → inbox tx (xs ++ ys) ≡ inbox tx xs ++ inbox tx ys
inbox-append tx [] ys = refl
inbox-append tx ((t, msg) ∷ xs) ys = ground (arith, inbox-append tx xs ys)

-- The channel belongs to nobody in the room but perhaps the peer.
abbrev pub OnlyOf : Sender → Uuid → Room → Type 0
OnlyOf tx id r = (j : Uuid) (d : ClientState) → get j r ≡ some d → d.tx ≡ tx → j ≡ id

pub get-others :
    (id j : Uuid) (r : Room) → get j (others id r) ≡ (if id == j then none else get j r)
unfolding get others
get-others id j [] = ground arith
get-others id j ((i, w) ∷ r) = ground (arith, get-others id j r)

pub Distinct-others : (id : Uuid) (r : Room) → Distinct r → Distinct (others id r)
unfolding others
Distinct-others id [] d = tt
Distinct-others id ((i, w) ∷ r) d = ground (arith, get-others id i r, Distinct-others id r d.1)

OnlyOf-tail :
    (tx : Sender) (id i : Uuid) (c : ClientState) (r : Room)
    → get i r ≡ none
    → OnlyOf tx id ((i, c) ∷ r)
    → OnlyOf tx id r
unfolding get
OnlyOf-tail tx id i c r fresh only j d h k = only j d (ground (arith, nat_eq_iff i j)) k

-- A broadcast to a room reaches the channel of each of its peers once.
pub inbox-send_all :
    (msg : WsServerMessage) (tx : Sender) (id : Uuid) (r : Room)
    → Distinct r
    → OnlyOf tx id r
    → inbox tx (send_all msg (senders r))
      ≡ elim (get id r) [ none ↦ [] | some c ↦ if c.tx == tx then msg ∷ [] else [] ]
unfolding send_all senders get
inbox-send_all msg tx id [] d only = refl
inbox-send_all msg tx id ((i, c) ∷ r) d only =
    ground (arith, inbox-send_all msg tx id r d.1 (OnlyOf-tail tx id i c r d.0 only), only i c)

-- No other peer of the server, in whatever room, has this channel.
abbrev pub OwnChannel : AppState → Text → Uuid → Sender → Type 0
OwnChannel s h id tx =
    (g : Text) (j : Uuid) (d : ClientState) → member s g j ≡ some d → d.tx ≡ tx → (g ≡ h) × (j ≡ id)

module _ (s : AppState) (g h : Text) (id : Uuid) (c : ClientState) (msg : WsServerMessage)
    (known : member s h id ≡ some c) (own : OwnChannel s h id c.tx) where
  unlisted :
      (skip : Uuid → Bool) (r : Room) (d : ClientState)
      → ((j : Uuid) → get j r ≡ (if skip j then none else member s g j))
      → (j : Uuid) → get j r ≡ some d
      → (skip j ≡ false) × (member s g j ≡ some d)
  unlisted skip r d same j e = ground (arith, same j, e)

  -- A broadcast to the peers of a room but those to skip, as one peer of the server sees it.
  pub inbox-room :
      (skip : Uuid → Bool) (r : Room)
      → Distinct r
      → ((j : Uuid) → get j r ≡ (if skip j then none else member s g j))
      → inbox c.tx (send_all msg (senders r)) ≡ (if (g == h) && not (skip id) then msg ∷ [] else [])
  unfolding member
  inbox-room skip r d same =
      inbox-send_all msg c.tx id r d (λ j e q k. (own g j e (unlisted skip r e same j q).1 k).1)
      ∙ elim (Option-cases (get id r)) [
        | inl e ↦ ground (arith, e, text_eq_iff g h, known, same id)
        | inr (x, e) ↦
            let (kept, there) = unlisted skip r x same id e in
            ground (
              arith,
              e,
              kept,
              text_eq_iff g h,
              nat_eq_iff x.tx c.tx,
              known,
              there,
              own g id x there,
            )
      ]

pub left_none :
    (s : AppState) (g h : Text) (id : Uuid) (c : ClientState)
    → member s h id ≡ some c
    → get g s.tx_map ≡ none
    → (g == h) ≡ false
unfolding member
left_none s g h id c known e = ground (arith, text_eq_iff g h, known, room-none g s.tx_map e id)
