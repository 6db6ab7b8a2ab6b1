-- ===== src/Signaling/Connect/Tests.antt =====
-- The first client of a room, with a toy format of the messages.
use localsend_uyava.Prelude.{
  ℕ, ℕ-Eq, Text-Eq, ◌≡◌, ◌≢◌, refl, inl, inr, ◌⊎◌, List, [], ◌∷◌, map, none, some, Text, ascii, ok,
  Option, ◌==◌, if◌then◌else◌, arith,
}
use localsend_uyava.Model.{Codec}
use localsend_uyava.Model.Format.{Format, number, both, either, list, via, text, codec}
use localsend_uyava.Crypto.Token.{value}
use localsend_uyava.Signaling.{
  Uuid, ClientInfo, with_id, without_id, WsServerSdpMessage, WsServerMessage,
}
use localsend_uyava.Signaling.Connect.{connect, connect_uri}
use localsend_uyava.Signaling.Connect.Greeting.{printed, NoQuery, ReadsParameter, socket_connects}
use localsend_uyava.Server.State.{ClientState, Send, new, room, protect_ddos_request_count, count}
use localsend_uyava.Server.Socket
use localsend_uyava.Server.Socket.{joined, limit_reached, senders, infos, send_all}
use localsend_uyava.Server.Members.{member}
use localsend_uyava.Server.Delivery.Admission.{find_peer}
use localsend_uyava.Server.IpGroup.{v4, get_ip_group}
use localsend_uyava.Server.Upgrade.{ws_handler, raw_forwarded}
use localsend_uyava.Server.Upgrade.Tests.{info, client_info, web}
use localsend_uyava.Server.Tests.{limits}
use localsend_uyava.Prelude.Dict.{get, insert}
use mathlib.Core.Option

pub peer_lem : (p : ClientInfo) → with_id (without_id p) p.id ≡ p
peer_lem p = refl

abbrev pub peer_format : Format ClientInfo
peer_format =
    via (both number client_info) (λ p. (p.id, without_id p)) (λ (id, i). with_id i id) peer_lem

abbrev pub sdp_format : Format WsServerSdpMessage
sdp_format =
    via (both peer_format (both text text)) (λ m. (m.peer, (m.session_id, m.sdp)))
      (λ (p, (s, d)). record { peer = p; session_id = s; sdp = d }) (λ m. refl)

abbrev pub Parts : Type 0
Parts =
    (ClientInfo × List ClientInfo)
    ⊎ (ClientInfo ⊎ (ClientInfo ⊎ (ℕ ⊎ (WsServerSdpMessage ⊎ (WsServerSdpMessage ⊎ ℕ)))))

abbrev pub parts_of : WsServerMessage → Parts
parts_of (WsServerMessage.hello client peers) = inl (client, peers)
parts_of (WsServerMessage.join peer) = inr (inl peer)
parts_of (WsServerMessage.update peer) = inr (inr (inl peer))
parts_of (WsServerMessage.left id) = inr (inr (inr (inl id)))
parts_of (WsServerMessage.offer sdp) = inr (inr (inr (inr (inl sdp))))
parts_of (WsServerMessage.answer sdp) = inr (inr (inr (inr (inr (inl sdp)))))
parts_of (WsServerMessage.error code) = inr (inr (inr (inr (inr (inr code)))))

abbrev pub of_parts : Parts → WsServerMessage
of_parts (inl (client, peers)) = WsServerMessage.hello client peers
of_parts (inr (inl peer)) = WsServerMessage.join peer
of_parts (inr (inr (inl peer))) = WsServerMessage.update peer
of_parts (inr (inr (inr (inl id)))) = WsServerMessage.left id
of_parts (inr (inr (inr (inr (inl sdp))))) = WsServerMessage.offer sdp
of_parts (inr (inr (inr (inr (inr (inl sdp)))))) = WsServerMessage.answer sdp
of_parts (inr (inr (inr (inr (inr (inr code)))))) = WsServerMessage.error code

pub parts_lem : (m : WsServerMessage) → of_parts (parts_of m) ≡ m
parts_lem (WsServerMessage.hello client peers) = refl
parts_lem (WsServerMessage.join peer) = refl
parts_lem (WsServerMessage.update peer) = refl
parts_lem (WsServerMessage.left id) = refl
parts_lem (WsServerMessage.offer sdp) = refl
parts_lem (WsServerMessage.answer sdp) = refl
parts_lem (WsServerMessage.error code) = refl

abbrev pub json : Codec WsServerMessage
json = codec (
    via
      (either (both peer_format (list peer_format)) (
        either peer_format
          (either peer_format (either number (either sdp_format (either sdp_format number))))))
      parts_of of_parts parts_lem)

abbrev group : Text
group = get_ip_group (v4 10 0 0 1)

abbrev me : ClientInfo
me = with_id info 7

abbrev greeting : List Send
greeting = (13, WsServerMessage.hello me []) ∷ []

admitted : (Socket.connect limits new group me 13).1 ≡ joined greeting
unfolding new Socket.connect room get insert protect_ddos_request_count count senders infos send_all
admitted = refl

nobody : (h : Text) (j : Uuid) (d : ClientState) → member new h j ≡ some d → d.tx ≢ 13
unfolding member new room get
nobody h j d e = absurd (ground (arith, e))

-- What follows on "?d=".
abbrev behind : Text → Option Text
behind (d ∷ e ∷ more) = some more
behind short = none

abbrev query : Text → Option Text
query [] = none
query (ch ∷ chars) = let rest = query chars in if ch == b'?' then behind chars else rest

query-ReadsParameter : ReadsParameter (λ b. b) query
query-ReadsParameter [] b plain = refl
query-ReadsParameter (ch ∷ chars) b (other, plain) =
    ground (arith, other, query-ReadsParameter chars b plain)

ws-NoQuery : NoQuery (ascii "ws")
ws-NoQuery = (omega arith, (omega arith, tt))

socket_connects_example :
    ((d : Text) × (query (connect_uri (λ b. b) web.info json (ascii "ws") info) ≡ some d)
      × (ws_handler web d 7 none (v4 10 0 0 1) ≡ (none, some (group, me))))
    × (peers : List ClientInfo) × (connect
          (λ b. b)
          web.info
          json
          (λ u.
            ok (map (printed json) (WsServerMessage.hello me [] ∷ WsServerMessage.error 429 ∷ [])))
          (ascii "ws")
          info
        ≡ value (
            ok (record {
              client = me;
              rx = WsServerMessage.hello me peers ∷ WsServerMessage.error 429 ∷ [];
            })))
    × ((j : Uuid) → find_peer j peers ≡ Option.map (λ c. with_id c.client j) (member new group j))
unfolding new room get raw_forwarded
socket_connects_example =
    socket_connects web (λ b. b) json query (λ b. refl) limits new 7 none (v4 10 0 0 1) 13 info
      (ascii "ws") _ greeting (WsServerMessage.error 429 ∷ []) query-ReadsParameter ws-NoQuery refl
      tt nobody admitted refl
