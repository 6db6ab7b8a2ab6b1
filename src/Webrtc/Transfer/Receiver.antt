-- ===== src/Webrtc/Transfer/Receiver.antt =====
-- What the receiving peer makes of the messages of the sending peer, on channels that work.
use mathlib.Core.List.{append_assoc, append-nil}
use localsend_uyava.Prelude.{
  Text-Eq, ◌≡◌, ◌≢◌, ◌<◌, refl, sym, ap, ◌∙◌, List, [], ◌∷◌, ◌++◌, map, flatten, none, some, false,
  not, Bytes, Text, ascii, length, ==-refl, ok, continue, All, is_some, arith,
}
use localsend_uyava.Prelude.Dict.{get}
use localsend_uyava.Model.{FileDto}
use localsend_uyava.Webrtc.Chunks.{DataChannelMessage, delimiter, is_delimiter}
use localsend_uyava.Webrtc.Chunks.Split.{chunks_of}
use localsend_uyava.Webrtc.Chunks.RoundTrip.{binary as binary_message}
use localsend_uyava.Webrtc.Messages.{Json, RtcSendFileHeaderRequest, RtcSendFileResponse}
use localsend_uyava.Webrtc.Io.{Effect, file, binary, Io, attempt, perform}
use localsend_uyava.Webrtc.Pin.{or_fail, text_message}
use localsend_uyava.Webrtc.Transfer.{
  RtcFile, RtcFileState, find_file, response_error, first, rest_of, going, go_on, tell, close_file,
  open_file, read_header, on_string, on_binary, on_message, receive_files,
}
use localsend_uyava.Webrtc.Transfer.Sender.{
  works, header_message, files_messages, logged, token_of, token_of_lem,
}

abbrev pub response : Json → Text → List RtcSendFileResponse → Effect
response json id results =
    let error = response_error (first results) in
    text_message (
      json.file_response.to_string
        (record { id = id; success = not (is_some error); error = error }))

-- The effects of a file being announced and published.
abbrev pub published : RtcFile → List Effect
published f = file f.file_id ∷ map (binary f.file_id) (chunks_of (flatten f.binary_rx))

-- The effects from the point where the file `id` is open.
abbrev pub trace : Json → Text → List RtcSendFileResponse → List RtcFile → List Effect
trace json id results [] = response json id results ∷ []
trace json id results (f ∷ fs) =
    response json id results ∷ (published f ++ trace json f.file_id (rest_of results) fs)

regroup :
    (log : List Effect) (a b : Effect) (cs rest : List Effect)
    → ((((log ++ a ∷ []) ++ b ∷ []) ++ cs) ++ rest) ≡ log ++ (a ∷ ((b ∷ cs) ++ rest))
regroup log a b cs rest = simp append_assoc

module _ (json : Json) (file_list : List FileDto) (tokens : List (Text × Text)) where
  pub receive_chunks :
      (cs : List Bytes) (state : RtcFileState) (results : List RtcSendFileResponse)
      (rest : List DataChannelMessage) (io : Io)
      → receive_files json works file_list tokens
          (some state)
          results
          (map binary_message cs ++ rest)
          io
        ≡ receive_files json works file_list tokens
            (some state)
            results
            rest
            (logged io (map (binary state.file_id) cs))
  unfolding receive_files on_message on_binary perform
  receive_chunks [] state results rest io =
      ap
        (λ l.
          receive_files json works file_list tokens (some state) results rest
            (record io { log = l }))
        (sym (append-nil io.log))
  receive_chunks (c ∷ cs) state results rest io =
      receive_chunks cs state results rest (logged io (binary state.file_id c ∷ []))
      ∙ ap
          (λ l.
            receive_files json works file_list tokens (some state) results rest
              (record io { log = l }))
          (append_assoc io.log (binary state.file_id c ∷ []) (map (binary state.file_id) cs))

  open_file_lem :
      (id token : Text) (fd : FileDto) (results : List RtcSendFileResponse) (io : Io)
      → get id tokens ≡ some token
      → find_file id file_list ≡ some fd
      → open_file json works file_list tokens (record { id = id; token = token }) results io ≡ (
        ok (going (some (record { file_id = id; size = fd.size })) results),
        logged io (file id ∷ []),
      )
  unfolding open_file tell attempt perform
  open_file_lem id token fd results io e f =
      rw (e, open_file) (rw (==-refl token) (rw (f, open_file) refl))

  -- A header whose token is right announces its file.
  read_header_lem :
      (id token : Text) (fd : FileDto) (results : List RtcSendFileResponse) (io : Io)
      → get id tokens ≡ some token
      → find_file id file_list ≡ some fd
      → read_header json works file_list tokens (header_message json id token) results io ≡ (
        ok (going (some (record { file_id = id; size = fd.size })) results),
        logged io (file id ∷ []),
      )
  unfolding read_header open_file or_fail tell attempt perform
  read_header_lem id token fd results io e f =
      ap
        (λ r.
          continue (or_fail (ascii "serde_json") r io)
            (λ h. open_file json works file_list tokens h results))
        (json.header.from_slice-to_string (record { id = id; token = token }))
      ∙ open_file_lem id token fd results io e f

  unfoldable pub opened : Text → FileDto → RtcFileState
  opened id fd = record { file_id = id; size = fd.size }

  pub first_header :
      (id token : Text) (fd : FileDto) (results : List RtcSendFileResponse)
      (ms : List DataChannelMessage) (io : Io)
      → get id tokens ≡ some token
      → find_file id file_list ≡ some fd
      → receive_files json works file_list tokens none results
          (header_message json id token ∷ ms)
          io
        ≡ receive_files json works file_list tokens
            (some (opened id fd))
            results
            ms
            (logged io (file id ∷ []))
  unfolding receive_files on_message on_string opened
  first_header id token fd results ms io e f =
      ap (λ x. continue x (go_on (λ s r. receive_files json works file_list tokens s r ms)))
        (read_header_lem id token fd results io e f)

  next_header :
      (state : RtcFileState) (id token : Text) (fd : FileDto) (results : List RtcSendFileResponse)
      (ms : List DataChannelMessage) (io : Io)
      → is_delimiter (header_message json id token) ≡ false
      → get id tokens ≡ some token
      → find_file id file_list ≡ some fd
      → receive_files json works file_list tokens
          (some state)
          results
          (header_message json id token ∷ ms)
          io
        ≡ receive_files json works file_list tokens
            (some (opened id fd))
            (rest_of results)
            ms
            (logged (logged io (response json state.file_id results ∷ [])) (file id ∷ []))
  unfolding receive_files on_message on_string opened close_file perform
  next_header state id token fd results ms io d e f = rw d (
      ap (λ x. continue x (go_on (λ s r. receive_files json works file_list tokens s r ms)))
        (read_header_lem id token fd (rest_of results)
          (logged io (response json state.file_id results ∷ [])) e f))

  -- The receiving peer selected the files, and knows them from the sender's list.
  abbrev pub AreKnown : List RtcFile → Type 0
  AreKnown = All (λ f.
      (get f.file_id tokens ≢ none) × ((fd : FileDto) × (find_file f.file_id file_list ≡ some fd)))

  -- A header as JSON is longer than the delimiter.
  abbrev pub HeadersAreLong : Type 0
  HeadersAreLong = (h : RtcSendFileHeaderRequest) → 1 < length (json.header.to_string h)

  not_delimiter :
      (id token : Text) → HeadersAreLong → is_delimiter (header_message json id token) ≡ false
  unfolding is_delimiter
  not_delimiter id token long = ground (arith, long (record { id = id; token = token }))

  pub receive_opened :
      (fs : List RtcFile) (state : RtcFileState) (results : List RtcSendFileResponse) (io : Io)
      → HeadersAreLong
      → AreKnown fs
      → receive_files json works file_list tokens
          (some state)
          results
          (files_messages json tokens fs)
          io
        ≡ (ok tt, logged io (trace json state.file_id results fs))
  unfolding receive_files on_message on_string close_file perform opened delimiter is_delimiter
  receive_opened [] state results io long known = refl
  receive_opened (f ∷ fs) state results io long ((selected, (fd, found)), known) =
      let token = token_of tokens f.file_id in
      let chunks = chunks_of (flatten f.binary_rx) in
      let answer = response json state.file_id results in
      next_header state f.file_id token fd results
        (map binary_message chunks ++ files_messages json tokens fs) io
        (not_delimiter f.file_id token long) (token_of_lem tokens f.file_id selected) found
      ∙ receive_chunks chunks (opened f.file_id fd) (rest_of results)
          (files_messages json tokens fs) (logged (logged io (answer ∷ [])) (file f.file_id ∷ []))
      ∙ receive_opened fs (opened f.file_id fd) (rest_of results) _ long known
      ∙ ap (λ l. (ok tt, record io { log = l }))
          (regroup io.log answer (file f.file_id) (map (binary f.file_id) chunks)
            (trace json f.file_id (rest_of results) fs))
