-- ===== src/Webrtc/Transfer/Sender.antt =====
-- What the sending peer puts on a data channel that works.
use mathlib.Core.List.{append_assoc, append-nil, map-append}
use localsend_uyava.Prelude.{
  Text-Eq, ◌≡◌, sym, ap, ◌∙◌, List, [], ◌∷◌, ◌++◌, map, flatten, none, some, Bool, true, Bytes,
  Text, ok, continue, All, ◌≢◌, Option-cases, inl, inr, arith,
}
use localsend_uyava.Prelude.Dict.{get}
use localsend_uyava.Webrtc.Chunks.{DataChannelMessage, delimiter}
use localsend_uyava.Webrtc.Chunks.Split.{chunks_of, send_each, process_in_chunks-send_each}
use localsend_uyava.Webrtc.Chunks.RoundTrip.{binary as binary_message}
use localsend_uyava.Webrtc.Messages.{Json}
use localsend_uyava.Webrtc.Io.{Effect, message, Io, recv_lem, perform}
use localsend_uyava.Webrtc.Transfer.{
  RtcFile, send_chunk, reported, or_report, send_file, send_files,
}

-- A channel on which every send succeeds.
abbrev pub works : List Effect → Effect → Bool
works log e = true

abbrev pub header_message : Json → Text → Text → DataChannelMessage
header_message json id token = record {
  is_string = true;
  contents = json.header.to_string (record { id = id; token = token });
}

-- A file as messages: its header, and its bytes in chunks.
abbrev pub file_messages : Json → RtcFile → Text → List DataChannelMessage
file_messages json f token =
    header_message json f.file_id token ∷ map binary_message (chunks_of (flatten f.binary_rx))

abbrev pub logged : Io → List Effect → Io
logged io es = record io { log = io.log ++ es }

abbrev pub token_of : List (Text × Text) → Text → Text
token_of file_map id = elim (get id file_map) [ none ↦ [] | some token ↦ token ]

-- All files as messages, and the delimiter.
abbrev pub files_messages : Json → List (Text × Text) → List RtcFile → List DataChannelMessage
files_messages json file_map [] = delimiter ∷ []
files_messages json file_map (f ∷ fs) =
    file_messages json f (token_of file_map f.file_id) ++ files_messages json file_map fs

-- The files were all selected by the other peer.
abbrev pub AreSelected : List (Text × Text) → List RtcFile → Type 0
AreSelected file_map = All (λ f. get f.file_id file_map ≢ none)

pub token_of_lem :
    (file_map : List (Text × Text)) (id : Text)
    → get id file_map ≢ none
    → get id file_map ≡ some (token_of file_map id)
token_of_lem file_map id h = elim (Option-cases (get id file_map)) [
  | inl e ↦ absurd (h e)
  | inr (t, e) ↦ ground (arith, e)
]

module _ (json : Json) where
  pub send_each-send_chunk :
      (cs : List Bytes) (io : Io)
      → send_each (send_chunk json works) cs io
        ≡ (ok tt, logged io (map message (map binary_message cs)))
  unfolding send_each send_chunk perform
  send_each-send_chunk [] io = ap (λ l. (ok tt, record io { log = l })) (sym (append-nil io.log))
  send_each-send_chunk (c ∷ cs) io =
      send_each-send_chunk cs (logged io (message (binary_message c) ∷ []))
      ∙ ap (λ l. (ok tt, record io { log = l }))
          (append_assoc io.log (message (binary_message c) ∷ [])
            (map message (map binary_message cs)))

  -- A file that the other peer selected is sent as its header and its bytes in chunks.
  send_file_lem :
      (file_map : List (Text × Text)) (f : RtcFile) (token : Text) (io : Io)
      → get f.file_id file_map ≡ some token
      → send_file json works file_map f io
        ≡ (ok tt, logged io (map message (file_messages json f token)))
  unfolding send_file or_report perform
  send_file_lem file_map f token io e =
      let header = message (header_message json f.file_id token) in
      let io1 : Io = logged io (header ∷ []) in
      let chunks = chunks_of (flatten f.binary_rx) in
      rw (e, send_file)
        (ap (reported json works f.file_id) (
            process_in_chunks-send_each (send_chunk json works) f.binary_rx io1
            ∙ send_each-send_chunk chunks io1)
          ∙ ap (λ l. (ok tt, record io { log = l }))
              (append_assoc io.log (header ∷ []) (map message (map binary_message chunks))))

  -- On a working channel, if the other peer selected all the files, the loop of the sending peer
  -- ends normally, and what it has sent is each file in turn, its header with the file's token
  -- and then its bytes in chunks, and the delimiter at the end.
  pub send_files_lem :
      (file_map : List (Text × Text)) (fs : List RtcFile) (io : Io)
      → AreSelected file_map fs
      → (io' : Io) × (send_files json works file_map fs io ≡ (ok tt, io'))
        × (io'.log ≡ io.log ++ map message (files_messages json file_map fs))
  unfolding send_files perform
  send_files_lem file_map [] io h =
      let (o, io', got, same) = recv_lem (logged io (message delimiter ∷ [])) in
      (io', ap (λ x. continue x (λ o u. (ok tt, u))) got, same)
  send_files_lem file_map (f ∷ fs) io (g, h) =
      let token = token_of file_map f.file_id in
      let sent = send_file_lem file_map f token io (token_of_lem file_map f.file_id g) in
      let (io', done, written) =
        send_files_lem file_map fs (logged io (map message (file_messages json f token))) h in
      (
        io',
        ap (λ x. continue x (λ u. send_files json works file_map fs)) sent ∙ done,
        written
            ∙ append_assoc io.log (map message (file_messages json f token)) _
            ∙ ap (λ l. io.log ++ l)
                (sym (
                  map-append message (file_messages json f token)
                    (files_messages json file_map fs))),
      )
