-- ===== src/Server/System/Sound.antt =====
-- The channels and the limits in a state that the server reaches.
use localsend_uyava.Prelude.{
  ℕ-Eq, Text-Eq, ◌≡◌, sym, ◌∙◌, inl, inr, ◌<◌, ◌^◌, some, Text, text_eq_iff, arith, Option-cases,
}
use localsend_uyava.Prelude.Dict.{get}
use localsend_uyava.Signaling.{Uuid}
use localsend_uyava.Server.State.{Limits, ClientState}
use localsend_uyava.Server.Members.{member}
use localsend_uyava.Server.Bounds.{IsSound, new-IsSound}
use localsend_uyava.Server.Bounds.Handlers.{
  connect-IsSound, charge-IsSound, dispatch-IsSound, disconnect-IsSound, clear-IsSound,
}
use localsend_uyava.Server.Delivery.{OwnChannel}
use localsend_uyava.Server.System.{
  Socket, System, start, open_socket, connects, charges, dispatches, disconnects, clears, Reach,
  begin, next,
}
use localsend_uyava.Server.System.Presence.{IsPresent, Reach-IsPresent}

socket_of :
    (y : System) (g : Text) (id : Uuid) (c : ClientState)
    → IsPresent y
    → member y.app g id ≡ some c
    → (k : Socket) × (get id y.sockets ≡ some k) × (k.group ≡ g) × (k.tx ≡ c.tx)
socket_of y g id c v e = elim (Option-cases (get id y.sockets)) [
  | inl f ↦ ground (arith, e, f, v.rooms g id)
  | inr (k, f) ↦ (
    k,
    f,
    ground (arith, e, f, v.rooms g id, text_eq_iff k.group g),
    ground (arith, e, f, v.rooms g id, text_eq_iff k.group g),
  )
]

-- So each peer of a reachable state has a channel that no other peer has.
pub Reach-OwnChannel :
    {limits : Limits} {y : System} (h : Text) (id : Uuid) (c : ClientState)
    → Reach limits y
    → member y.app h id ≡ some c
    → OwnChannel y.app h id c.tx
Reach-OwnChannel {limits} {y} h id c r e g j d f q =
    let v = Reach-IsPresent r in
    let (k, at_id, in_h, k_tx) = socket_of y h id c v e in
    let (l, at_j, in_g, l_tx) = socket_of y g j d v f in
    let same = v.apart j id l k at_j at_id (l_tx ∙ q ∙ sym k_tx) in
    (cc (at_j, at_id, same, in_g, in_h), same)

-- If the request limit is a u32, every reachable state keeps one entry for a key in each map, at
-- most `max_connections` peers in a room and at most `max_requests` counted requests for a group.
pub Reach-IsSound :
    {limits : Limits} {y : System}
    → limits.max_requests < 2 ^ 32
    → Reach limits y
    → IsSound limits y.app
unfolding start open_socket
Reach-IsSound {limits} fits begin = new-IsSound limits
Reach-IsSound {limits} fits (next r (connects y g peer tx unused fresh)) =
    connect-IsSound limits y.app g peer tx fits (Reach-IsSound fits r)
Reach-IsSound {limits} fits (next r (charges y g)) =
    charge-IsSound limits y.app g fits (Reach-IsSound fits r)
Reach-IsSound {limits} fits (next r (dispatches y id k msg e)) =
    dispatch-IsSound limits y.app k.group k.peer msg (Reach-IsSound fits r)
Reach-IsSound {limits} fits (next r (disconnects y id k e)) =
    disconnect-IsSound limits y.app k.group k.peer.id (Reach-IsSound fits r)
Reach-IsSound {limits} fits (next r (clears y)) = clear-IsSound limits y.app (Reach-IsSound fits r)
