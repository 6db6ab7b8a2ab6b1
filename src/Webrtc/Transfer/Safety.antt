-- ===== src/Webrtc/Transfer/Safety.antt =====
-- What the receiving peer lets through, whatever the other peer sends.
use localsend_uyava.Prelude.{
  Text-Eq, text_eq_iff, ◌≡◌, ap, ◌∙◌, inl, inr, ◌⊎◌, List, [], ◌∷◌, Option, none, some, Bool, false,
  not, Text, ascii, ◌==◌, All, arith,
}
use localsend_uyava.Prelude.Dict.{get}
use localsend_uyava.Model.{FileDto}
use localsend_uyava.Webrtc.Chunks.{DataChannelMessage, is_delimiter}
use localsend_uyava.Webrtc.Messages.{Json, RtcSendFileHeaderRequest, RtcSendFileResponse}
use localsend_uyava.Webrtc.Io.{Effect, file, binary, Io, Task, ◌>>◌, pure, perform}
use localsend_uyava.Webrtc.Pin.{or_fail}
use localsend_uyava.Webrtc.Transfer.{
  RtcFileState, find_file, file_error_of, rest_of, Next, finished, going, go_on, tell, close_file,
  open_file, read_header, on_string, on_binary, on_message, receive_files,
}
use localsend_uyava.Webrtc.Keeps.{
  Keeps, Any, All-Any, Keeps-bind, Keeps-pure, Keeps-or_fail, Keeps-perform, Keeps-if, Keeps-option,
  Keeps-tell,
}

-- One of the messages is the header with this identifier and token.
abbrev pub HasHeader : Json → RtcSendFileHeaderRequest → List DataChannelMessage → Type 0
HasHeader json header [] = ⊥
HasHeader json header (m ∷ ms) =
    (json.header.from_slice m.contents ≡ some header) ⊎ HasHeader json header ms

-- The file was selected, and a header came with its token.
abbrev pub IsEntitled : Json → List (Text × Text) → List DataChannelMessage → Text → Type 0
IsEntitled json tokens msgs id =
    (token : Text) × (get id tokens ≡ some token)
    × HasHeader json (record { id = id; token = token }) msgs

-- What concerns a file concerns an entitled one.
abbrev pub IsAllowed : Json → List (Text × Text) → List DataChannelMessage → Effect → Type 0
IsAllowed json tokens msgs (file id) = IsEntitled json tokens msgs id
IsAllowed json tokens msgs (binary id b) = IsEntitled json tokens msgs id
IsAllowed json tokens msgs _ = Unit

-- The open file is an entitled one.
abbrev IsOpen : Json → List (Text × Text) → List DataChannelMessage → Option RtcFileState → Type 0
IsOpen json tokens msgs none = Unit
IsOpen json tokens msgs (some state) = IsEntitled json tokens msgs state.file_id

abbrev IsNext : Json → List (Text × Text) → List DataChannelMessage → Next → Type 0
IsNext json tokens msgs finished = Unit
IsNext json tokens msgs (going state results) = IsOpen json tokens msgs state

token_lem : (a b : Text) → not (a == b) ≡ false → b ≡ a
token_lem a b f = ground (arith, text_eq_iff a b, f)

module _ (json : Json) (alive : List Effect → Effect → Bool) (listed : List FileDto)
    (tokens : List (Text × Text)) (msgs : List DataChannelMessage) where
  abbrev Q : Effect → Type 0
  Q = IsAllowed json tokens msgs

  abbrev W : DataChannelMessage → Type 0
  W msg = Unit

  abbrev R : Next → Type 0
  R = IsNext json tokens msgs

  refuse :
      (id e : Text) (results : List RtcSendFileResponse)
      → Keeps Q W R (tell json alive (file_error_of id e) >> pure (going none results))
  refuse id e results =
      Keeps-bind Q W Any R (tell json alive (file_error_of id e)) (λ u. pure (going none results))
        (Keeps-tell Q W json alive (file_error_of id e) tt)
        (λ u r. Keeps-pure Q W R (going none results) tt)

  accept :
      (id : Text) (state : RtcFileState) (results : List RtcSendFileResponse)
      → IsEntitled json tokens msgs id
      → IsEntitled json tokens msgs state.file_id
      → Keeps Q W R (tell json alive (file id) >> pure (going (some state) results))
  accept id state results entitled also =
      Keeps-bind Q W Any R (tell json alive (file id)) (λ u. pure (going (some state) results))
        (Keeps-tell Q W json alive (file id) entitled)
        (λ u r. Keeps-pure Q W R (going (some state) results) also)

  Keeps-open_file :
      (header : RtcSendFileHeaderRequest) (results : List RtcSendFileResponse)
      → HasHeader json header msgs
      → Keeps Q W R (open_file json alive listed tokens header results)
  unfolding open_file
  Keeps-open_file header results came =
      Keeps-option Q W R (get header.id tokens) _ _
        (refuse header.id (ascii "File not found") results)
        (λ entry e.
          Keeps-if Q W R (not (header.token == entry)) _ _
            (λ f. refuse header.id (ascii "Invalid token") results)
            (λ f.
              let same : get header.id tokens ≡ some header.token =
                e ∙ ap some (token_lem header.token entry f) in
              Keeps-option Q W R (find_file header.id listed) _ _
                (refuse header.id (ascii "Expected size to be available") results)
                (λ fd g.
                  accept header.id (record { file_id = header.id; size = fd.size }) results
                    (header.token, same, came) (header.token, same, came))))

  Keeps-read_header :
      (msg : DataChannelMessage) (results : List RtcSendFileResponse)
      → ((header : RtcSendFileHeaderRequest)
          → json.header.from_slice msg.contents ≡ some header
          → HasHeader json header msgs)
      → Keeps Q W R (read_header json alive listed tokens msg results)
  unfolding read_header
  Keeps-read_header msg results came =
      Keeps-bind Q W (λ h. json.header.from_slice msg.contents ≡ some h) R
        (or_fail (ascii "serde_json") (json.header.from_slice msg.contents))
        (λ h. open_file json alive listed tokens h results)
        (Keeps-or_fail Q W (ascii "serde_json") (json.header.from_slice msg.contents))
        (λ h e. Keeps-open_file h results (came h e))

  Keeps-on_message :
      (state : Option RtcFileState) (results : List RtcSendFileResponse) (msg : DataChannelMessage)
      → IsOpen json tokens msgs state
      → ((header : RtcSendFileHeaderRequest)
          → json.header.from_slice msg.contents ≡ some header
          → HasHeader json header msgs)
      → Keeps Q W R (on_message json alive listed tokens state results msg)
  unfolding on_message on_string on_binary close_file
  Keeps-on_message none results msg holds came =
      Keeps-if Q W R msg.is_string _ _ (λ e. Keeps-read_header msg results came)
        (λ e. refuse (ascii "unknown") (ascii "Received binary data without a header") results)
  Keeps-on_message (some state) results msg holds came =
      Keeps-if Q W R msg.is_string _ _
        (λ e.
          Keeps-bind Q W Any R (close_file json alive listed tokens state results) _
            (Keeps-perform Q W alive _ tt)
            (λ u r.
              Keeps-if Q W R (is_delimiter msg) _ _ (λ f. Keeps-pure Q W R finished tt)
                (λ f. Keeps-read_header msg (rest_of results) came)))
        (λ e.
          Keeps-bind Q W Any R (perform alive (binary state.file_id msg.contents)) _
            (Keeps-perform Q W alive (binary state.file_id msg.contents) holds)
            (λ u r. Keeps-pure Q W R (going (some state) results) holds))

  Keeps-go_on :
      (more : Option RtcFileState → List RtcSendFileResponse → Task (Unit {0})) (next : Next)
      → ((state : Option RtcFileState) (results : List RtcSendFileResponse)
          → IsOpen json tokens msgs state
          → Keeps Q W Any (more state results))
      → R next
      → Keeps Q W Any (go_on more next)
  Keeps-go_on more finished k r = Keeps-pure Q W Any tt tt
  Keeps-go_on more (going state results) k r = k state results r

  Keeps-receive_files :
      (ms : List DataChannelMessage) (state : Option RtcFileState)
      (results : List RtcSendFileResponse)
      → IsOpen json tokens msgs state
      → ((header : RtcSendFileHeaderRequest)
          → HasHeader json header ms
          → HasHeader json header msgs)
      → Keeps Q W Any (receive_files json alive listed tokens state results ms)
  unfolding receive_files
  Keeps-receive_files [] state results holds came = Keeps-pure Q W Any tt tt
  Keeps-receive_files (m ∷ ms) state results holds came =
      Keeps-bind Q W R Any (on_message json alive listed tokens state results m)
        (go_on (λ state' results'. receive_files json alive listed tokens state' results' ms))
        (Keeps-on_message state results m holds (λ h e. came h (inl e)))
        (λ next.
          Keeps-go_on _ next
            (λ state' results' r. Keeps-receive_files ms state' results' r (λ h e. came h (inr e))))

-- From an empty log, whatever messages arrive, and whatever sends fail, every file that the
-- receiving peer's loop announces to its side, and every byte that it publishes, belongs to a
-- file that was selected and for which one of the messages is a header with that file's token.
pub receive_files_safe :
    (json : Json) (alive : List Effect → Effect → Bool) (listed : List FileDto)
    (tokens : List (Text × Text)) (msgs : List DataChannelMessage)
    (results : List RtcSendFileResponse) (io : Io)
    → io.log ≡ []
    → All
        (IsAllowed json tokens msgs)
        (receive_files json alive listed tokens none results msgs io).1.log
receive_files_safe json alive listed tokens msgs results io e =
    (Keeps-receive_files json alive listed tokens msgs msgs none results tt (λ h k. k) io (rw e tt)
      (All-Any io.incoming)).0
