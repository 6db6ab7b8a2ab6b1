-- ===== src/App/Webrtc/Tests.antt =====
-- An application that uses the controllers.
use localsend_uyava.Prelude.{
  ℕ, ◌≡◌, ap, refl, List, [], ◌∷◌, map, flatten, none, some, true, false, Bytes, Text-Eq, ascii,
  Result, ok, err,
}
use localsend_uyava.Crypto.Token.{Outcome, value}
use localsend_uyava.Crypto.Toy.{toy, toy-CryptoLaws}
use localsend_uyava.Crypto.Keys.{parse_private_key, parse_public_key}
use localsend_uyava.Crypto.Keys.Pairs.Tests.{formats}
use localsend_uyava.Signaling.{ClientInfoWithoutId, with_id, WsServerMessage}
use localsend_uyava.Signaling.Client.{received}
use localsend_uyava.Signaling.Connect.{SignalingConnection}
use localsend_uyava.Signaling.Listener.{messages}
use localsend_uyava.Webrtc.Messages.{RtcStatus}
use localsend_uyava.Webrtc.Transfer.{RtcFile}
use localsend_uyava.Webrtc.Io.{Io}
use localsend_uyava.Webrtc.Peer.Tests.{stored, works, delivered, sdp_of, callee}
use localsend_uyava.Webrtc.Tests.Toy as Toys
use localsend_uyava.Webrtc.Handshake.Sending.{send_task}
use localsend_uyava.Webrtc.Handshake.Accepting.{receive_task}
use localsend_uyava.App.Buffer.Joined.{AreLarge}
use localsend_uyava.App.Webrtc.{add, ProposingClientInfo, connect, parse_keys}
use localsend_uyava.App.Webrtc.Connected.{IsHeardOutcome, connect_hears}
use localsend_uyava.App.Webrtc.PinSender.Answers.{numbered, answers}
use localsend_uyava.App.Webrtc.Receiving.{accepted, receiver_of}
use localsend_uyava.App.Webrtc.Receiving.File.{get_file_id, receive, receive_once}
use localsend_uyava.App.Webrtc.Receiving.Calls
use localsend_uyava.App.Webrtc.Receiving.Calls.{
  pin_requested, listen_status, send_pin, send_selection, decline,
}
use localsend_uyava.App.Webrtc.Receiving.Decided.{decision, pin_calls, heard, status_sinks, run_lem}
use localsend_uyava.App.Webrtc.Sending.{offered}
use localsend_uyava.App.Webrtc.Sending.Files
use localsend_uyava.App.Webrtc.Sending.Files.{send_file, send, files_of, run-files_of}
use localsend_uyava.App.Webrtc.Tasks
use localsend_uyava.App.Webrtc.Tasks.{or_task}
use localsend_uyava.App.Webrtc.Tasks.Reports.{EndsWith, always, tasks_report}

abbrev calls : List Calls.Call
calls =
    pin_requested
    ∷ send_pin true (ascii "1")
    ∷ send_pin true (ascii "2")
    ∷ listen_status
    ∷ decline true
    ∷ pin_requested
    ∷ send_selection true (ascii "f" ∷ [])
    ∷ listen_status
    ∷ send_pin false (ascii "3")
    ∷ []

run_lem_example :
    let (got, r) = Calls.run calls (accepted (RtcStatus.connected ∷ []) none [] []) in
    (r.selected ≡ decision calls)
    × (r.pin_tx.sent ≡ numbered 0 (answers (pin_calls calls)))
    × (status_sinks got ≡ heard (RtcStatus.connected ∷ []) calls)
run_lem_example = run_lem calls (RtcStatus.connected ∷ []) none [] []

-- What these come to: the files are declined, and the first request has its first PIN.
decisions : decision calls ≡ some none
unfolding decision
decisions = refl

pins : numbered 0 (answers (pin_calls calls)) ≡ (0, ascii "1") ∷ []
unfolding numbered answers pin_calls
pins = refl

abbrev sends : List Files.Call
sends =
    send_file true (ascii "f")
    ∷ send_file true (ascii "g")
    ∷ send true 1 (1 ∷ [])
    ∷ send true 0 (2 ∷ [])
    ∷ send true 1 (3 ∷ [])
    ∷ []

run-files_of_example : (Files.run sends (offered [] none [])).sending ≡ files_of 0 sends
run-files_of_example = run-files_of sends [] none []

abbrev file : RtcFile
file = record { file_id = ascii "f"; binary_rx = (1 ∷ []) ∷ [] ∷ (2 ∷ []) ∷ [] }

receive_once_example :
    let (first, after) = receive (receiver_of file) in
    let (second, last) = receive after in
    ((get_file_id after ≡ file.file_id)
      × (out : List Bytes) × (first ≡ (ok tt, map add out))
      × (flatten out ≡ flatten file.binary_rx)
      × AreLarge out
      × (second ≡ (err (ascii "File receiver listened to"), [])))
receive_once_example = receive_once file

abbrev io : Io
io = record { incoming = []; pins = []; log = [] }

tasks_report_example :
    ((statuses : List RtcStatus) × (Tasks.send_offer toy formats Toys.toy stored
          (works (ascii "o"))
          always
          true
          (λ l e. true)
          none
          (ascii "s")
          2
          (some (sdp_of callee))
          true
          []
          (5 ∷ [])
          none
          none
          []
          []
          io
        ≡ ok statuses)
      × EndsWith
          (or_task none
            (send_task Toys.toy
              (λ l e. true)
              toy
              (parse_public_key toy formats)
              true
              []
              5
              none
              none
              []
              []
              (some false)
              io).0)
          statuses)
    × ((statuses : List RtcStatus) × (Tasks.accept_offer toy formats Toys.toy stored
            (works (ascii "o"))
            always
            true
            (λ l e. true)
            none
            delivered
            true
            []
            (λ t. t)
            (5 ∷ [])
            none
            none
            none
            []
            io
          ≡ ok statuses)
        × EndsWith
            (or_task none
              (receive_task Toys.toy (λ l e. true) toy true [] (λ t. t) 5 none none none [] io).0)
            statuses)
unfolding parse_keys parse_private_key
tasks_report_example =
    tasks_report toy formats Toys.toy stored (works (ascii "o")) true (λ l e. true) none (5 ∷ [])
      none 5 none (ascii "s") 2 (some (sdp_of callee)) delivered true [] (λ t. t) none [] [] none []
      io refl

abbrev me : ProposingClientInfo
me = record { alias = ascii "a"; version = ascii "2"; device_model = none; device_type = none }

abbrev open_socket : ClientInfoWithoutId → Outcome (Result SignalingConnection)
open_socket info = value (
    ok (record {
      client = with_id info 7;
      rx = WsServerMessage.hello (with_id info 7) [] ∷ WsServerMessage.left 3 ∷ [];
    }))

connect_hears_example :
    IsHeardOutcome {C = ℕ} toy formats open_socket me
      (5 ∷ [])
      1000
      (map received)
      (connect toy formats open_socket {C = ℕ} me (5 ∷ []) (ok 1000) (map received))
connect_hears_example =
    connect_hears toy formats open_socket me (5 ∷ []) 1000 (map received) toy-CryptoLaws interleaves
  where
    interleaves : (rx : List WsServerMessage) → messages {C = ℕ} (map received rx) ≡ rx
    interleaves [] = refl
    interleaves (m ∷ rx) = ap (λ l. m ∷ l) (interleaves rx)
