-- ===== src/Webrtc/Transfer.antt =====
-- core/src/webrtc/webrtc.rs: the file loops, `while let Some(message) = sending_rx.recv()` in
-- `send_offer` and `while let Some(msg) = receive_rx.recv()` in `accept_offer`.
pub mod Sender
pub mod Receiver
pub mod Received
pub mod Safety
use localsend_uyava.Prelude.{
  ℕ, Text-Eq, List, [], ◌∷◌, Option, none, some, Bool, false, not, Bytes, Text, ascii, ◌==◌,
  if◌then◌else◌, Result, ok, err, is_some,
}
use localsend_uyava.Prelude.Dict.{get}
use localsend_uyava.Model.{FileDto}
use localsend_uyava.Webrtc.Chunks.{DataChannelMessage, process_in_chunks, delimiter, is_delimiter}
use localsend_uyava.Webrtc.Messages.{Json, RtcSendFileHeaderRequest, RtcSendFileResponse}
use localsend_uyava.Webrtc.Io.{
  ◌>>◌, ◌>>=◌, Effect, message, file_error, file, binary, Io, Task, pure, attempt, recv, perform,
}
use localsend_uyava.Webrtc.Pin.{or_fail, text_message}

-- `RTCFile`, with what its channel will give.
pub record RtcFile : Type 0 where
  pub file_id : Text
  pub binary_rx : List Bytes

-- `RTCFileState`
pub record RtcFileState : Type 0 where
  pub file_id : Text
  pub size : ℕ

abbrev pub file_error_of : Text → Text → Effect
file_error_of id e = file_error (record { file_id = id; error = e })

-- `file_list.iter().find(|f| f.id == header.id)`
unfoldable pub find_file : Text → List FileDto → Option FileDto
find_file id [] = none
find_file id (f ∷ fs) = if f.id == id then some f else find_file id fs

-- The text of a result that the user's side gives for a finished file.
unfoldable pub response_error : Option RtcSendFileResponse → Option Text
response_error none = some (ascii "Failed to receive file result")
response_error (some result) =
    if result.success
    then none
    else some (elim result.error [ none ↦ ascii "Unknown error" | some e ↦ e ])

abbrev pub first {ℓ} : {A : Type ℓ} → List A → Option A
first [] = none
first (x ∷ xs) = some x

abbrev pub rest_of {ℓ} : {A : Type ℓ} → List A → List A
rest_of [] = []
rest_of (x ∷ xs) = xs

-- After a message the loop ends, or goes on with its state: the open file, and the results that
-- the user's side has still to give.
pub data Next : Type 0 where
  finished : Next
  going : Option RtcFileState → List RtcSendFileResponse → Next

abbrev pub go_on :
    (Option RtcFileState → List RtcSendFileResponse → Task (Unit {0})) → Next → Task (Unit {0})
go_on more finished = pure tt
go_on more (going state results) = more state results

module _ (json : Json) (alive : List Effect → Effect → Bool) where
  -- `error_tx.send(…)` and `receiving_tx.send(…)`, whose failures are ignored.
  unfoldable pub tell : Effect → Task (Unit {0})
  unfolding perform attempt
  tell e = attempt (perform alive e)

  -- `data_channel.send(&chunk)`
  unfoldable pub send_chunk : Bytes → Task (Unit {0})
  unfolding perform
  send_chunk chunk = perform alive (message (record { is_string = false; contents = chunk }))

  -- An error of a send is reported and the loop goes on.
  pub reported : Text → Result (Unit {0}) × Io → Result (Unit {0}) × Io
  unfolding tell
  reported id (ok u, io') = (ok tt, io')
  reported id (err e, io') = tell (file_error_of id e) io'

  pub or_report : Text → Task (Unit {0}) → Task (Unit {0})
  unfolding reported
  or_report id m io = reported id (m io)

  module _ (file_map : List (Text × Text)) where
    pub send_file : RtcFile → Task (Unit {0})
    unfolding or_report send_chunk
    send_file f = elim (get f.file_id file_map) [
      | none ↦ tell (file_error_of f.file_id (ascii "Failed to get file token"))
      | some token ↦ or_report f.file_id (do
        perform alive
            (text_message (json.header.to_string (record { id = f.file_id; token = token })))
        process_in_chunks send_chunk f.binary_rx)
    ]

    -- The loop, the delimiter that ends all files, and the wait for a last message.
    pub send_files : List RtcFile → Task (Unit {0})
    send_files [] = do perform alive (message delimiter); received ← recv; pure tt
    send_files (f ∷ fs) = let more : Task (Unit {0}) = send_files fs in do send_file f; more

  module _ (file_list : List FileDto) (file_tokens : List (Text × Text)) where
    -- The end of the last file: its result goes to the sender.
    pub close_file : RtcFileState → List RtcSendFileResponse → Task (Unit {0})
    close_file state results =
        let error = response_error (first results) in
        perform alive (
          text_message (
            json.file_response.to_string
              (record { id = state.file_id; success = not (is_some error); error = error })))

    pub open_file : RtcSendFileHeaderRequest → List RtcSendFileResponse → Task Next
    unfolding tell
    open_file header results = elim (get header.id file_tokens) [
      | none ↦ do tell (file_error_of header.id (ascii "File not found")); pure (going none results)
      | some entry ↦
          if not (header.token == entry)
          then (do
            tell (file_error_of header.id (ascii "Invalid token"))
            pure (going none results))
          else (elim (find_file header.id file_list) [
            | none ↦ do
              tell (file_error_of header.id (ascii "Expected size to be available"))
              pure (going none results)
            | some f ↦ do
              tell (file header.id)
              pure (going (some (record { file_id = header.id; size = f.size })) results)
          ])
    ]

    pub read_header : DataChannelMessage → List RtcSendFileResponse → Task Next
    unfolding open_file or_fail
    read_header msg results = do
      header ← or_fail (ascii "serde_json") (json.header.from_slice msg.contents)
      open_file header results

    -- A string message. The delimiter is asked for only where a file was open.
    pub on_string : Option RtcFileState → List RtcSendFileResponse → DataChannelMessage → Task Next
    unfolding close_file
    on_string none results msg = read_header msg results
    on_string (some state) results msg = do
      close_file state results
      if is_delimiter msg then pure finished else read_header msg (rest_of results)

    pub on_binary : Option RtcFileState → List RtcSendFileResponse → DataChannelMessage → Task Next
    on_binary none results msg = do
      tell (file_error_of (ascii "unknown") (ascii "Received binary data without a header"))
      pure (going none results)
    on_binary (some state) results msg = do
      perform alive (binary state.file_id msg.contents)
      pure (going (some state) results)

    pub on_message : Option RtcFileState → List RtcSendFileResponse → DataChannelMessage → Task Next
    on_message state results msg =
        if msg.is_string then on_string state results msg else on_binary state results msg

    -- The loop, over what `receive_rx` gives until it is closed.
    pub receive_files :
        Option RtcFileState → List RtcSendFileResponse → List DataChannelMessage → Task (Unit {0})
    receive_files state results [] = pure tt
    receive_files state results (msg ∷ msgs) = do
      next ← on_message state results msg
      go_on (λ state' results'. receive_files state' results' msgs) next
