-- ===== src/Signaling/Client.antt =====
-- core/src/webrtc/signaling.rs: the client of the signaling server: the two tasks of `connect`, what
-- a client sends, and the listener with its callbacks for answers.
use localsend_uyava.Prelude.{
  Text-Eq, List, [], ◌∷◌, ◌++◌, Option, none, some, Bool, true, false, Text, ascii, if◌then◌else◌,
  Result, ok, err,
}
use localsend_uyava.Prelude.Dict.{get, insert, remove}
use localsend_uyava.Model.{Codec}
use localsend_uyava.Signaling.{
  Uuid, ClientInfo, ClientInfoWithoutId, WsServerSdpMessage, WsServerMessage, WsClientMessage,
}

-- What the writing task of `connect` meets in each round: a message to send, or 120 seconds without
-- any. Where the list ends, the channel is closed.
pub data Round : Type 0 where
  sending : WsClientMessage → Round
  timeout : Round

-- What is written to the socket.
pub data Frame : Type 0 where
  text : Text → Frame
  ping : Frame

-- What the reading task of `connect` gets from the socket: a text, a frame of another kind or an
-- error. `taken` says whether the client is still waiting for its own information, and `kept`
-- whether anybody receives the messages.
pub record Incoming : Type 0 where
  pub text : Option Text
  pub taken : Bool
  pub kept : Bool

module _ (json : Codec WsClientMessage) where
  abbrev pub frame_of : Round → Frame
  frame_of (sending message) = text (json.to_string message)
  frame_of timeout = ping

  -- The writing task: it ends where the socket refuses a frame.
  unfoldable pub write_loop : (List Frame → Bool) → List Round → List Frame → List Frame
  write_loop accepts [] written = written
  write_loop accepts (round ∷ rounds) written =
      let rest = write_loop accepts rounds (written ++ frame_of round ∷ []) in
      if accepts written then rest else written

-- `client_tx` and `receive_tx`, and what the reading task has sent on them.
pub record Read : Type 0 where
  pub clients : List ClientInfo
  pub messages : List WsServerMessage

-- A message that nobody receives is only logged.
abbrev pub pass : Bool → WsServerMessage → List WsServerMessage → List WsServerMessage
pass kept message messages = if kept then messages ++ message ∷ [] else messages

-- A hello is passed on only if its client is taken.
unfoldable pub read_message : Incoming → WsServerMessage → Read → Read
read_message frame (WsServerMessage.hello client peers) read =
    if frame.taken
    then record {
      clients = read.clients ++ client ∷ [];
      messages = pass frame.kept (WsServerMessage.hello client peers) read.messages;
    }
    else read
read_message frame message read = record read { messages = pass frame.kept message read.messages }

module _ (json : Codec WsServerMessage) where
  abbrev pub parse_frame : Option Text → Option WsServerMessage
  parse_frame none = none
  parse_frame (some t) = json.from_slice t

  -- What does not parse is only logged.
  unfoldable pub read_frame : Incoming → Read → Read
  unfolding read_message
  read_frame frame read = elim (parse_frame frame.text) [
    | none ↦ read
    | some message ↦ read_message frame message read
  ]

  -- The reading task.
  unfoldable pub read_loop : List Incoming → Read → Read
  unfolding read_frame
  read_loop [] read = read
  read_loop (frame ∷ frames) read = read_loop frames (read_frame frame read)

-- What a client sends, on `tx`, whose other end may be gone.
abbrev pub Sending : Type 0
Sending = List WsClientMessage → Result (Unit {0}) × List WsClientMessage

unfoldable pub send : Bool → WsClientMessage → Sending
send true message sent = (ok tt, sent ++ message ∷ [])
send false message sent = (err (ascii "channel closed"), sent)

unfoldable pub send_update : Bool → ClientInfoWithoutId → Sending
unfolding send
send_update alive info = send alive (WsClientMessage.update info)

unfoldable pub send_offer : Bool → Text → Uuid → Text → Sending
unfolding send
send_offer alive session_id target sdp =
    send alive
      (WsClientMessage.offer (record { session_id = session_id; target = target; sdp = sdp }))

unfoldable pub send_answer : Bool → Text → Uuid → Text → Sending
unfolding send
send_answer alive session_id target sdp =
    send alive
      (WsClientMessage.answer (record { session_id = session_id; target = target; sdp = sdp }))

-- The listener of `start_listener` and its shared map. A callback of `C` is called once.
pub record Managed (C : Type 0) : Type 0 where
  pub on_answer : List (Text × C)
  pub calls : List (C × WsServerSdpMessage)
  pub forwarded : List WsServerMessage
  pub running : Bool

-- What happens, in order: a message arrives, or a callback is added.
pub data Event (C : Type 0) : Type 0 where
  received : WsServerMessage → Event C
  added : Text → C → Event C

module _ {C : Type 0} where
  -- `start_listener`
  abbrev pub started : Managed C
  started = record { on_answer = []; calls = []; forwarded = []; running = true }

  -- `ManagedSignalingConnection::on_answer`
  unfoldable pub add_callback : Text → C → Managed C → Managed C
  add_callback session_id callback m = record m {
    on_answer = insert session_id callback m.on_answer;
  }

  -- `on_answer.lock().await.remove(…)`
  unfoldable pub call : Option C → WsServerSdpMessage → Managed C → Managed C
  call none sdp m = m
  call (some callback) sdp m = record m {
    on_answer = remove sdp.session_id m.on_answer;
    calls = m.calls ++ (callback, sdp) ∷ [];
  }

  unfoldable pub answer : WsServerMessage → Managed C → Managed C
  unfolding call
  answer (WsServerMessage.answer sdp) m = call (get sdp.session_id m.on_answer) sdp m
  answer message m = m

  -- `tx.send(message).await.unwrap()` ends the task where the receiver is gone; `alive` says whether
  -- it is there, from what it was given before.
  unfoldable pub forward : (List WsServerMessage → Bool) → WsServerMessage → Managed C → Managed C
  forward alive message m =
      if alive m.forwarded
      then record m { forwarded = m.forwarded ++ message ∷ [] }
      else record m { running = false }

  unfoldable pub step : (List WsServerMessage → Bool) → Event C → Managed C → Managed C
  unfolding add_callback answer forward
  step alive (added session_id callback) m = add_callback session_id callback m
  step alive (received message) m =
      if m.running then forward alive message (answer message m) else m

  unfoldable pub run : (List WsServerMessage → Bool) → List (Event C) → Managed C → Managed C
  unfolding step
  run alive [] m = m
  run alive (event ∷ events) m = run alive events (step alive event m)
