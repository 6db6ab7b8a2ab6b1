-- ===== src/Webrtc/Peer/Tests.antt =====
-- Two peers of a room, with connections that work.
use localsend_uyava.Prelude.{List, ◌∷◌, ◌++◌, some, true, Text, ascii, ok, err, map, ℕ-Eq, Text-Eq}
use localsend_uyava.Crypto.Toy.{toy}
use localsend_uyava.Signaling.{WsServerSdpMessage, WsClientSdpMessage, WsClientMessage}
use localsend_uyava.Signaling.Client.{started, received, added, run}
use localsend_uyava.Signaling.Listener.{always}
use localsend_uyava.Server.Socket.{dispatch}
use localsend_uyava.Server.Delivery.{inbox}
use localsend_uyava.Server.Tests.{lobby, alice, bob, two}
use localsend_uyava.Webrtc.Peer
use localsend_uyava.Webrtc.Peer.{
  Zlib, Connection, Ended, task, panicked, disconnected, new, rx_answer,
}
use localsend_uyava.Webrtc.Peer.Endings.{calls_end, Ends, Accepts}
use localsend_uyava.Webrtc.Peer.Working.{Side}

abbrev pub stored : Zlib
stored = record { compress = λ b. b; decompress = λ b. ok b }

-- A description is its text, and the candidates are put behind it.
abbrev pub works : Text → Connection
works name = record {
  new_peer_connection = ok tt;
  create_data_channel = ok tt;
  create_offer = ok name;
  create_answer = λ d. ok name;
  set_local_description = λ d. ok tt;
  local_description = λ d. some (d ++ ascii ":c");
  read_offer = λ d. ok d;
  read_answer = λ d. ok d;
  set_remote_description = λ d. ok tt;
  close = ok tt;
}

abbrev pub side : Text → Text → Side
side own other = record {
  connection = works own;
  listening = λ s. true;
  ended = task (ok tt);
  own = own;
  local = own ++ ascii ":c";
  remote = other ++ ascii ":c";
}

abbrev pub caller : Side
caller = side (ascii "o") (ascii "a")

abbrev pub callee : Side
callee = side (ascii "a") (ascii "o")

abbrev pub sdp_of : Side → Text
sdp_of s = Peer.encode_sdp toy stored s.local

abbrev offer : WsClientSdpMessage
offer = record { session_id = ascii "s"; target = 2; sdp = sdp_of caller }

abbrev answer : WsClientSdpMessage
answer = record { session_id = ascii "s"; target = 1; sdp = sdp_of callee }

abbrev pub delivered : WsServerSdpMessage
delivered = record { peer = alice; session_id = ascii "s"; sdp = sdp_of caller }

abbrev accepting : Peer.Peer
accepting =
    (Peer.accept_offer toy stored callee.connection callee.listening true delivered callee.ended
      new).1

abbrev heard : List (Unit {0} × WsServerSdpMessage)
heard =
    (run always
      (added (ascii "s") tt
        ∷ map received (inbox 11 (dispatch two.app lobby bob (WsClientMessage.answer answer)).1))
      started).calls

abbrev offering : Peer.Peer
offering =
    (Peer.send_offer toy stored caller.connection caller.listening true (ascii "s") 2
      (rx_answer heard) caller.ended new).1

-- The task fails after the exchange.
calls_end_example :
    Ends
      (works (ascii "o"))
      (λ s. true)
      (task (err (ascii "e")))
      (Peer.send_offer toy stored
        (works (ascii "o"))
        (λ s. true)
        true
        (ascii "s")
        2
        (some (sdp_of callee))
        (task (err (ascii "e")))
        new)
    × Accepts
        (works (ascii "o"))
        (λ s. true)
        (task (err (ascii "e")))
        (Peer.accept_offer toy stored
          (works (ascii "o"))
          (λ s. true)
          true
          delivered
          (task (err (ascii "e")))
          new)
calls_end_example =
    calls_end toy stored (works (ascii "o")) (λ s. true) true (ascii "s") 2 (some (sdp_of callee))
      delivered (task (err (ascii "e")))
