-- ===== src/Webrtc/Transfer/Received.antt =====
-- The files that the receiving peer's side gets from the messages of the sending peer.
use mathlib.Core.List.{append_assoc, append-nil}
use localsend_uyava.Prelude.{
  Text-Eq, ◌≡◌, refl, sym, ap, ◌∙◌, List, [], ◌∷◌, ◌++◌, map, flatten, none, Bytes, Text, ok,
}
use localsend_uyava.Model.{FileDto}
use localsend_uyava.Webrtc.Chunks.Split.{chunks_of}
use localsend_uyava.Webrtc.Chunks.Sizes.{chunks_of_lem}
use localsend_uyava.Webrtc.Chunks.RoundTrip.{binary as binary_message}
use localsend_uyava.Webrtc.Messages.{Json, RtcSendFileResponse}
use localsend_uyava.Webrtc.Io.{Effect, file, binary, Io}
use localsend_uyava.Webrtc.Transfer.{RtcFile, rest_of, receive_files}
use localsend_uyava.Webrtc.Transfer.Sender.{works, files_messages, logged, token_of, token_of_lem}
use localsend_uyava.Webrtc.Transfer.Receiver.{
  published, trace, opened, receive_chunks, first_header, receive_opened, AreKnown, HeadersAreLong,
}

-- The bytes that are published until the next file is announced.
abbrev pub bytes_until : List Effect → Bytes
bytes_until [] = []
bytes_until (file id ∷ es) = []
bytes_until (binary id b ∷ es) = b ++ bytes_until es
bytes_until (_ ∷ es) = bytes_until es

-- The files that the receiving peer's side gets, each with its bytes.
abbrev pub files_in : List Effect → List (Text × Bytes)
files_in [] = []
files_in (file id ∷ es) = (id, bytes_until es) ∷ files_in es
files_in (_ ∷ es) = files_in es

bytes_until-binary :
    (id : Text) (cs : List Bytes) (es : List Effect)
    → bytes_until (map (binary id) cs ++ es) ≡ flatten cs ++ bytes_until es
unfolding flatten
bytes_until-binary id [] es = refl
bytes_until-binary id (c ∷ cs) es =
    ap (λ b. c ++ b) (bytes_until-binary id cs es)
    ∙ sym (append_assoc c (flatten cs) (bytes_until es))

files_in-binary :
    (id : Text) (cs : List Bytes) (es : List Effect)
    → files_in (map (binary id) cs ++ es) ≡ files_in es
files_in-binary id [] es = refl
files_in-binary id (c ∷ cs) es = files_in-binary id cs es

abbrev contents_of : RtcFile → Text × Bytes
contents_of f = (f.file_id, flatten f.binary_rx)

bytes_until-trace :
    (json : Json) (id : Text) (results : List RtcSendFileResponse) (fs : List RtcFile)
    → bytes_until (trace json id results fs) ≡ []
bytes_until-trace json id results [] = refl
bytes_until-trace json id results (f ∷ fs) = refl

files_in-published :
    (f : RtcFile) (es : List Effect)
    → bytes_until es ≡ []
    → files_in (published f ++ es) ≡ contents_of f ∷ files_in es
files_in-published f es e =
    let chunks = chunks_of (flatten f.binary_rx) in
    ap (λ b. (f.file_id, b) ∷ files_in (map (binary f.file_id) chunks ++ es))
      (bytes_until-binary f.file_id chunks es
        ∙ ap (λ b. flatten chunks ++ b) e
        ∙ append-nil (flatten chunks)
        ∙ (chunks_of_lem (flatten f.binary_rx)).0)
    ∙ ap (λ fs. contents_of f ∷ fs) (files_in-binary f.file_id chunks es)

files_in-trace :
    (json : Json) (id : Text) (results : List RtcSendFileResponse) (fs : List RtcFile)
    → files_in (trace json id results fs) ≡ map contents_of fs
files_in-trace json id results [] = refl
files_in-trace json id results (f ∷ fs) =
    files_in-published f (trace json f.file_id (rest_of results) fs)
      (bytes_until-trace json f.file_id (rest_of results) fs)
    ∙ ap (λ fs. contents_of f ∷ fs) (files_in-trace json f.file_id (rest_of results) fs)

-- When no messages are left, the loop ends.
pub receive_files-nil :
    (json : Json) (file_list : List FileDto) (tokens : List (Text × Text))
    (results : List RtcSendFileResponse) (io : Io)
    → receive_files json works file_list tokens none results [] io ≡ (ok tt, io)
unfolding receive_files
receive_files-nil json file_list tokens results io = refl

-- On working channels, and if a header as JSON is longer than the delimiter, the messages that
-- the sending peer's loop produces for one file or more, all selected and listed, take the
-- receiving peer's loop to its normal end, and its side gets exactly these files, in order, each
-- with all its bytes.
pub receive_files-files_messages :
    (json : Json) (file_list : List FileDto) (tokens : List (Text × Text)) (f : RtcFile)
    (fs : List RtcFile) (results : List RtcSendFileResponse) (io : Io)
    → HeadersAreLong json file_list tokens
    → AreKnown json file_list tokens (f ∷ fs)
    → (new : List Effect) × (receive_files json works file_list tokens none results
          (files_messages json tokens (f ∷ fs))
          io
        ≡ (ok tt, logged io new))
      × (files_in new ≡ map (λ f. (f.file_id, flatten f.binary_rx)) (f ∷ fs))
unfolding opened
receive_files-files_messages json file_list tokens f fs results io long
      ((selected, (fd, found)), known) =
    let token = token_of tokens f.file_id in
    let chunks = chunks_of (flatten f.binary_rx) in
    let after = trace json f.file_id results fs in
    (
      published f ++ after,
      first_header json file_list tokens f.file_id token fd results
            (map binary_message chunks ++ files_messages json tokens fs) io
            (token_of_lem tokens f.file_id selected) found
          ∙ receive_chunks json file_list tokens chunks (opened json file_list tokens f.file_id fd)
              results (files_messages json tokens fs) (logged io (file f.file_id ∷ []))
          ∙ receive_opened json file_list tokens fs (opened json file_list tokens f.file_id fd)
              results _ long known
          ∙ ap (λ l. (ok tt, record io { log = l })) (simp append_assoc),
      files_in-published f after (bytes_until-trace json f.file_id results fs)
          ∙ ap (λ fs. contents_of f ∷ fs) (files_in-trace json f.file_id results fs),
    )
