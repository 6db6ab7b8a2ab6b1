-- ===== src/Server/Socket.antt =====
-- server/src/controller/ws_controller.rs: the life of one websocket, `handle_socket` and the
-- functions that it calls.
use localsend_uyava.Prelude.{
  ℕ-Eq, Text-Eq, List, [], ◌∷◌, ◌++◌, Option, none, some, Bool, true, false, not, Text, leb, map,
  length, ◌==◌, if◌then◌else◌,
}
use localsend_uyava.Prelude.Dict.{get, insert, remove}
use localsend_uyava.Signaling.{
  Uuid, ClientInfo, ClientInfoWithoutId, with_id, without_id, WsServerMessage, WsClientMessage,
  WsClientSdpMessage,
}
use localsend_uyava.Server.State.{
  Limits, Sender, Room, TxMap, AppState, Send, room, protect_ddos_request_count,
}

-- `.values().map(|p| p.tx.clone())`
unfoldable pub senders : Room → List Sender
senders = map λ (k, p). p.tx

unfoldable pub infos : Room → List ClientInfo
infos = map λ (k, p). with_id p.client k

unfoldable pub send_all : WsServerMessage → List Sender → List Send
send_all msg = map λ tx. (tx, msg)

-- What the socket does after the block that holds the lock.
pub data Admission : Type 0 where
  limit_reached : Admission
  joined : List Send → Admission

-- The first block of `handle_socket`. The room is entered in the map before the tests.
unfoldable pub connect : Limits → AppState → Text → ClientInfo → Sender → AppState × Admission
unfolding room senders infos send_all
connect limits s group peer tx =
    let local : Room = room group s.tx_map in
    let opened : AppState = record s { tx_map = insert group local s.tx_map } in
    if leb limits.max_connections (length local)
    then (opened, limit_reached)
    else let charged = protect_ddos_request_count limits.max_requests s.request_count_map group in
      if not charged.1 then (record opened { request_count_map = charged.0 }, limit_reached) else (
        record s {
          tx_map =
              insert group (insert peer.id (record { client = without_id peer; tx = tx }) local)
                s.tx_map;
          request_count_map = charged.0;
        },
        joined (
            send_all (WsServerMessage.join peer) (senders local)
            ++ (tx, WsServerMessage.hello peer (infos local)) ∷ []),
      )

-- `.filter(|(k, _)| *k != &peer_id)`
unfoldable pub others : Uuid → Room → Room
others id [] = []
others id ((k, p) ∷ r) = let rest = others id r in if k == id then rest else (k, p) ∷ rest

unfoldable pub send_update_to_other_peers :
    TxMap → Text → Uuid → ClientInfoWithoutId → TxMap × List Send
unfolding senders send_all others
send_update_to_other_peers m group peer_id info = elim (get group m) [
  | none ↦ (m, [])
  | some local ↦ elim (get peer_id local) [
    | none ↦ (m, [])
    | some state ↦
        let local' : Room = insert peer_id (record state { client = info }) local in
        (
          insert group local' m,
          send_all (WsServerMessage.update (with_id info peer_id))
              (senders (others peer_id local')),
        )
  ]
]

-- `WsClientSdpMessageWrapper`
pub data SdpKind : Type 0 where
  offer answer : SdpKind

abbrev pub server_message : SdpKind → ClientInfo → WsClientSdpMessage → WsServerMessage
server_message offer peer inner =
    WsServerMessage.offer (record { peer = peer; session_id = inner.session_id; sdp = inner.sdp })
server_message answer peer inner =
    WsServerMessage.answer (record { peer = peer; session_id = inner.session_id; sdp = inner.sdp })

unfoldable pub send_to_peer : TxMap → Text → ClientInfo → SdpKind → WsClientSdpMessage → List Send
send_to_peer m group origin kind inner = elim (get group m) [
  | none ↦ []
  | some local ↦ elim (get inner.target local) [
    | none ↦ []
    | some state ↦ (state.tx, server_message kind origin inner) ∷ []
  ]
]

-- One round of `recv_task`: `ended` stands for its `return`.
pub data Received : Type 0 where
  going ended : List Send → Received

unfoldable pub dispatch : AppState → Text → ClientInfo → WsClientMessage → AppState × List Send
unfolding send_update_to_other_peers send_to_peer
dispatch s group peer (WsClientMessage.update info) =
    let (m, sends) = send_update_to_other_peers s.tx_map group peer.id info in
    (record s { tx_map = m }, sends)
dispatch s group peer (WsClientMessage.offer sdp) = (s, send_to_peer s.tx_map group peer offer sdp)
dispatch s group peer (WsClientMessage.answer sdp) =
    (s, send_to_peer s.tx_map group peer answer sdp)

-- `parsed` is what serde_json makes of the text; a text that does not parse is skipped.
unfoldable pub receive :
    Limits → AppState → Text → ClientInfo → Sender → Option WsClientMessage → AppState × Received
receive limits s group peer tx none = (s, going [])
receive limits s group peer tx (some msg) =
    let charged = protect_ddos_request_count limits.max_requests s.request_count_map group in
    let s' : AppState = record s { request_count_map = charged.0 } in
    if not charged.1
    then (s', ended ((tx, WsServerMessage.error 429) ∷ []))
    else (let (t, sends) = dispatch s' group peer msg in (t, going sends))

abbrev pub is_empty {ℓ} : {A : Type ℓ} → List A → Bool
is_empty [] = true
is_empty (x ∷ xs) = false

-- The last block of `handle_socket`.
unfoldable pub disconnect : AppState → Text → Uuid → AppState × List Send
unfolding senders send_all
disconnect s group peer_id = elim (get group s.tx_map) [
  | none ↦ (s, [])
  | some local ↦
      let local' : Room = remove peer_id local in
      if is_empty local' then (record s { tx_map = remove group s.tx_map }, []) else (
        record s { tx_map = insert group local' s.tx_map },
        send_all (WsServerMessage.left peer_id) (senders local'),
      )
]
