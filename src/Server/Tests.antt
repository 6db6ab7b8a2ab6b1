-- ===== src/Server/Tests.antt =====
-- A room of two peers, on which the theorems about the server are tried.
use localsend_uyava.Prelude.{
  ℕ, ℕ-Eq, Text-Eq, ◌≡◌, ◌≢◌, refl, ◌+◌, ◌≤◌, [], ◌∷◌, none, some, Text, ascii, text_eq,
  if◌then◌else◌, arith, ◌&&◌, not, leb, ◌==◌,
}
use localsend_uyava.Prelude.Dict.{get, insert, Distinct}
use localsend_uyava.Signaling.{
  ClientInfo, ClientInfoWithoutId, with_id, without_id, WsServerMessage, WsClientMessage,
  WsClientSdpMessage,
}
use localsend_uyava.Server.State.{
  Limits, Sender, ClientState, new, room, count, protect_ddos_request_count,
}
use localsend_uyava.Server.Socket.{
  senders, infos, send_all, connect, limit_reached, joined, dispatch, SdpKind, disconnect,
  server_message,
}
use localsend_uyava.Server.Members.{member, member_lem}
use localsend_uyava.Server.Bounds.{IsSound, protect_ddos_request_count_lem}
use localsend_uyava.Server.Delivery.{inbox, OwnChannel}
use localsend_uyava.Server.Delivery.Told.{inbox_lem}
use localsend_uyava.Server.Delivery.Relay.{sdp_message, inbox-dispatch_sdp}
use localsend_uyava.Server.System.{
  System, start, FreshChannel, open_socket, connects, Reach, begin, next,
}
use localsend_uyava.Server.System.Presence.{IsPresent, Reach-IsPresent}
use localsend_uyava.Server.System.Sound.{Reach-OwnChannel, Reach-IsSound}

abbrev pub limits : Limits
limits = record { max_connections = 5; max_requests = 10 }

abbrev pub lobby : Text
lobby = ascii "l"

abbrev info : Text → ClientInfoWithoutId
info name = record {
  alias = name;
  version = ascii "2";
  device_model = none;
  device_type = none;
  token = [];
}

abbrev pub alice : ClientInfo
alice = with_id (info (ascii "a")) 1

abbrev pub bob : ClientInfo
bob = with_id (info (ascii "b")) 2

abbrev carol : ClientInfo
carol = with_id (info (ascii "c")) 3

abbrev pub state_of : ClientInfo → Sender → ClientState
state_of p tx = record { client = without_id p; tx = tx }

abbrev one : System
one = open_socket limits start lobby alice 11

abbrev pub two : System
two = open_socket limits one lobby bob 12

one_fresh : FreshChannel 12 one
unfolding open_socket start connect new room get insert protect_ddos_request_count count senders
    infos send_all text_eq
one_fresh id k e = ground (arith, e)

one-Reach : Reach limits one
unfolding start get
one-Reach = next begin (connects start lobby alice 11 refl (λ id k e. ground (arith, e)))

pub two-Reach : Reach limits two
unfolding open_socket start connect new room get insert protect_ddos_request_count count senders
    infos send_all text_eq
two-Reach = next one-Reach (connects one lobby bob 12 refl one_fresh)

pub alice-member : member two.app lobby 1 ≡ some (state_of alice 11)
unfolding open_socket start connect new room get insert protect_ddos_request_count count senders
    infos send_all member text_eq
alice-member = refl

pub bob-member : member two.app lobby 2 ≡ some (state_of bob 12)
unfolding open_socket start connect new room get insert protect_ddos_request_count count senders
    infos send_all member text_eq
bob-member = refl

two-IsSound : IsSound limits two.app
two-IsSound = Reach-IsSound (omega arith) two-Reach

Reach-IsPresent_example : IsPresent two
Reach-IsPresent_example = Reach-IsPresent two-Reach

Reach-IsSound_example : IsSound limits two.app
Reach-IsSound_example = Reach-IsSound (omega arith) two-Reach

two-Distinct : (g : Text) → Distinct (room g two.app.tx_map)
two-Distinct g = (two-IsSound.rooms g).0

bob-OwnChannel : OwnChannel two.app lobby 2 12
bob-OwnChannel = Reach-OwnChannel lobby 2 (state_of bob 12) two-Reach bob-member

twelve : ◌≢◌ {A = ℕ} 12 13
twelve = omega arith

inbox_lem_example :
    (inbox 12 (elim (connect limits two.app lobby alice 13).1 [
      | limit_reached ↦ []
      | joined sends ↦ sends
    ])
      ≡ WsServerMessage.join alice ∷ [])
    × (inbox 12 (dispatch two.app lobby alice (WsClientMessage.update (info (ascii "x")))).1
        ≡ WsServerMessage.update (with_id (info (ascii "x")) 1) ∷ [])
    × (inbox 12 (disconnect two.app lobby 1).1 ≡ WsServerMessage.left 1 ∷ [])
unfolding open_socket start connect new room get insert protect_ddos_request_count count senders
    infos send_all member text_eq
inbox_lem_example =
    inbox_lem limits two.app lobby lobby alice (info (ascii "x")) 13 2 (state_of bob 12)
      two-Distinct bob-member bob-OwnChannel twelve

member_lem_example :
    (member (connect limits two.app lobby carol 13).0 lobby 3 ≡ some (state_of carol 13))
    × (member (dispatch two.app lobby carol (WsClientMessage.update (info (ascii "x")))).0 lobby 3
        ≡ none)
    × (member (disconnect two.app lobby 3).0 lobby 3 ≡ none)
unfolding open_socket start connect new room get insert protect_ddos_request_count count senders
    infos send_all member text_eq
member_lem_example = member_lem limits two.app lobby lobby carol (info (ascii "x")) 3 13

offer_to_bob : WsClientSdpMessage
offer_to_bob = record { session_id = ascii "s"; target = 2; sdp = ascii "o" }

inbox-dispatch_sdp_example :
    inbox 12 (dispatch two.app lobby alice (sdp_message SdpKind.offer offer_to_bob)).1
    ≡ server_message SdpKind.offer alice offer_to_bob ∷ []
unfolding offer_to_bob text_eq
inbox-dispatch_sdp_example =
    inbox-dispatch_sdp two.app lobby lobby alice SdpKind.offer offer_to_bob 2 (state_of bob 12)
      bob-member bob-OwnChannel

no_count : count lobby [] ≤ 10
unfolding count get
no_count = omega arith

protect_ddos_request_count_example :
    let (m', ok) = protect_ddos_request_count 10 [] lobby in
    (count lobby m' ≡ (if (lobby == lobby) && ok then count lobby [] + 1 else count lobby []))
    × (ok ≡ not (leb 10 (count lobby [])))
protect_ddos_request_count_example =
    protect_ddos_request_count_lem 10 [] lobby lobby (omega arith) no_count
