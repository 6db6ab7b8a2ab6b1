-- ===== src/Server/Bounds/Handlers.antt =====
-- Each handler keeps the maps sound.
use localsend_uyava.Prelude.{
  ℕ-Eq, Text-Eq, inl, inr, ◌<◌, ◌^◌, Option, none, some, Text, ◌==◌, arith, Option-cases,
  Bool-cases,
}
use localsend_uyava.Prelude.Dict.{
  get, insert, remove, Distinct, Distinct-insert, Distinct-remove, length-insert-le,
  length-insert_known, length-remove-le,
}
use localsend_uyava.Signaling.{Uuid, ClientInfo, ClientInfoWithoutId, without_id, WsClientMessage}
use localsend_uyava.Server.State.{
  Limits, Sender, ClientState, Room, TxMap, AppState, room, count, protect_ddos_request_count,
  clear,
}
use localsend_uyava.Server.Socket.{
  connect, send_update_to_other_peers, dispatch, receive, disconnect, is_empty,
}
use localsend_uyava.Server.Members.{room-remove, room-some}
use localsend_uyava.Server.Bounds.{Fits, IsSound, charge-counts, charge-Distinct, Fits-insert}

pub connect-IsSound :
    (limits : Limits) (s : AppState) (g : Text) (peer : ClientInfo) (tx : Sender)
    → limits.max_requests < 2 ^ 32
    → IsSound limits s
    → IsSound limits (connect limits s g peer tx).0
unfolding connect
connect-IsSound limits s g peer tx fits v =
    let c : ClientState = record { client = without_id peer; tx = tx } in
    let r : Room = room g s.tx_map in
    record {
      groups = ground (
        arith,
        Distinct-insert g r s.tx_map v.groups,
        Distinct-insert g (insert peer.id c r) s.tx_map v.groups,
      );
      counters =
          ground (
            arith,
            charge-Distinct limits.max_requests s.request_count_map g v.counters,
            v.counters,
          );
      rooms = λ h. ground (
        arith,
        v.rooms g,
        Fits-insert limits g h r s.tx_map (v.rooms g) (v.rooms h),
        Fits-insert limits g h (insert peer.id c r) s.tx_map,
        v.rooms h,
        Distinct-insert peer.id c r,
        length-insert-le peer.id c r,
      );
      counts = λ h. ground (
        arith,
        v.counts h,
        v.counts g,
        charge-counts limits.max_requests s.request_count_map g h fits (v.counts g) (v.counts h),
      );
    }

-- Only the room of the peer changes, and it keeps its size.
update-groups :
    (m : TxMap) (g : Text) (id : Uuid) (info : ClientInfoWithoutId)
    → Distinct m
    → Distinct (send_update_to_other_peers m g id info).0
unfolding send_update_to_other_peers
update-groups m g id info d = elim (Option-cases (get g m)) [
  | inl e ↦ ground (arith, e)
  | inr (r, e) ↦ elim (Option-cases (get id r)) [
    | inl f ↦ ground (arith, e, f)
    | inr (c, f) ↦
        ground (arith, e, f, Distinct-insert g (insert id (record c { client = info }) r) m d)
  ]
]

update-Fits :
    (limits : Limits) (m : TxMap) (g h : Text) (id : Uuid) (info : ClientInfoWithoutId)
    → Fits limits (room g m)
    → Fits limits (room h m)
    → Fits limits (room h (send_update_to_other_peers m g id info).0)
unfolding send_update_to_other_peers
update-Fits limits m g h id info here there = elim (Option-cases (get g m)) [
  | inl e ↦ ground (arith, e, there)
  | inr (r, e) ↦ elim (Option-cases (get id r)) [
    | inl f ↦ ground (arith, e, f, there)
    | inr (c, f) ↦
        let c' : ClientState = record c { client = info } in
        let old : Fits limits r = rw (← room-some g m r e) here in
        let new : Fits limits (insert id c' r) =
          (Distinct-insert id c' r old.0, rw (length-insert_known id c' c r f) old.1) in
        rw (e, send_update_to_other_peers)
          (rw (f, send_update_to_other_peers) (Fits-insert limits g h (insert id c' r) m new there))
  ]
]

pub dispatch-IsSound :
    (limits : Limits) (s : AppState) (g : Text) (peer : ClientInfo) (msg : WsClientMessage)
    → IsSound limits s
    → IsSound limits (dispatch s g peer msg).0
unfolding dispatch
dispatch-IsSound limits s g peer (WsClientMessage.offer sdp) v = v
dispatch-IsSound limits s g peer (WsClientMessage.answer sdp) v = v
dispatch-IsSound limits s g peer (WsClientMessage.update info) v = record {
  groups = update-groups s.tx_map g peer.id info v.groups;
  counters = v.counters;
  rooms = λ h. update-Fits limits s.tx_map g h peer.id info (v.rooms g) (v.rooms h);
  counts = v.counts;
}

pub charge-IsSound :
    (limits : Limits) (s : AppState) (g : Text)
    → limits.max_requests < 2 ^ 32
    → IsSound limits s
    → IsSound limits (record s {
      request_count_map = (protect_ddos_request_count limits.max_requests s.request_count_map g).0;
    })
charge-IsSound limits s g fits v = record {
  groups = v.groups;
  counters = charge-Distinct limits.max_requests s.request_count_map g v.counters;
  rooms = v.rooms;
  counts =
      λ h. charge-counts limits.max_requests s.request_count_map g h fits (v.counts g) (v.counts h);
}

pub receive-IsSound :
    (limits : Limits) (s : AppState) (g : Text) (peer : ClientInfo) (tx : Sender)
    (parsed : Option WsClientMessage)
    → limits.max_requests < 2 ^ 32
    → IsSound limits s
    → IsSound limits (receive limits s g peer tx parsed).0
unfolding receive
receive-IsSound limits s g peer tx none fits v = v
receive-IsSound limits s g peer tx (some msg) fits v =
    let v' = charge-IsSound limits s g fits v in
    elim (Bool-cases (protect_ddos_request_count limits.max_requests s.request_count_map g).1) [
      | inl e ↦ rw e (dispatch-IsSound limits _ g peer msg v')
      | inr e ↦ rw e v'
    ]

pub disconnect-IsSound :
    (limits : Limits) (s : AppState) (g : Text) (peer_id : Uuid)
    → IsSound limits s
    → IsSound limits (disconnect s g peer_id).0
unfolding disconnect
disconnect-IsSound limits s g peer_id v = elim (Option-cases (get g s.tx_map)) [
  | inl e ↦ rw (e, disconnect) v
  | inr (r, e) ↦
      let old : Fits limits r = rw (← room-some g s.tx_map r e) (v.rooms g) in
      let rest : Fits limits (remove peer_id r) =
        (Distinct-remove peer_id r old.0, omega (arith, length-remove-le peer_id r, old.1)) in
      rw (e, disconnect)
        (elim (Bool-cases (is_empty (remove peer_id r))) [
          | inl f ↦ rw f (record {
            groups = Distinct-remove g s.tx_map v.groups;
            counters = v.counters;
            rooms = λ h. rw (room-remove g h s.tx_map) (elim (Bool-cases (g == h)) [
              | inl q ↦ rw q (tt, omega arith)
              | inr q ↦ rw q (v.rooms h)
            ]);
            counts = v.counts;
          })
          | inr f ↦ rw f (record {
            groups = Distinct-insert g (remove peer_id r) s.tx_map v.groups;
            counters = v.counters;
            rooms = λ h. Fits-insert limits g h (remove peer_id r) s.tx_map rest (v.rooms h);
            counts = v.counts;
          })
        ])
]

pub clear-IsSound : (limits : Limits) (s : AppState) → IsSound limits s → IsSound limits (clear s)
unfolding clear count get
clear-IsSound limits s v = record {
  groups = v.groups;
  counters = tt;
  rooms = v.rooms;
  counts = λ g. omega arith;
}
