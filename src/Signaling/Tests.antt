-- ===== src/Signaling/Tests.antt =====
-- A client that waits for the answer to one session.
use localsend_uyava.Prelude.{ℕ, ◌≡◌, List, [], ◌∷◌, none, Text, ascii}
use localsend_uyava.Signaling.{ClientInfo, WsServerMessage}
use localsend_uyava.Signaling.Client.{Event, received, added, started, run}
use localsend_uyava.Signaling.Listener.{always, of_session, calls_for, messages, run_refines}

abbrev peer : ClientInfo
peer = record {
  id = 1;
  alias = ascii "peer";
  version = ascii "2.3";
  device_model = none;
  device_type = none;
  token = [];
}

abbrev answer_to : Text → WsServerMessage
answer_to s = WsServerMessage.answer (record { peer = peer; session_id = s; sdp = ascii "sdp" })

abbrev events : List (Event ℕ)
events =
    received (answer_to (ascii "s"))
    ∷ added (ascii "s") 7
    ∷ received (answer_to (ascii "t"))
    ∷ received (answer_to (ascii "s"))
    ∷ received (answer_to (ascii "s"))
    ∷ []

run_refines_example :
    (of_session (ascii "s") (run always events started).calls ≡ calls_for (ascii "s") none events)
    × ((run always events started).forwarded ≡ messages events)
run_refines_example = run_refines (ascii "s") events
