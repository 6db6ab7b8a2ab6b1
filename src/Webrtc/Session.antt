-- ===== src/Webrtc/Session.antt =====
-- The parts of the tasks of webrtc.rs on channels that work, with a peer that keeps to the protocol.
pub mod Accepting
pub mod Sending
pub mod Turns
pub mod Expected
pub mod Complete
pub mod Pins
use mathlib.Core.List.{append_assoc, append-nil, map-append}
use localsend_uyava.Prelude.{
  ◌≡◌, refl, sym, ap, ◌∙◌, List, [], ◌∷◌, ◌++◌, map, flatten, true, Bytes, ok, continue,
}
use localsend_uyava.Webrtc.Chunks.{
  DataChannelMessage, delimiter, send_string_in_chunks, receive_string_from_chunks,
}
use localsend_uyava.Webrtc.Chunks.Split.{chunks_of, send_each, process_in_chunks-send_each}
use localsend_uyava.Webrtc.Chunks.RoundTrip.{binary, receive_string_from_chunks-chunks_of}
use localsend_uyava.Webrtc.Messages.{Json}
use localsend_uyava.Webrtc.Io.{Effect, message, Io, perform}
use localsend_uyava.Webrtc.Transfer.{send_chunk}
use localsend_uyava.Webrtc.Transfer.Sender.{works, send_each-send_chunk}
use localsend_uyava.Webrtc.Transfer.Received.{files_in}
use localsend_uyava.Webrtc.Handshake.{send_whole}

abbrev pub said : Bytes → DataChannelMessage
said bytes = record { is_string = true; contents = bytes }

-- A text in chunks, and its delimiter.
abbrev pub whole : Bytes → List DataChannelMessage
whole bytes = map binary (chunks_of bytes) ++ delimiter ∷ []

-- The channels of a task that is asked for no PIN.
abbrev pub channels : List DataChannelMessage → List Effect → Io
channels incoming log = record { incoming = incoming; pins = []; log = log }

-- The messages that a task has sent.
abbrev pub messages_of : List Effect → List DataChannelMessage
messages_of [] = []
messages_of (message m ∷ log) = m ∷ messages_of log
messages_of (_ ∷ log) = messages_of log

pub messages_of-map :
    (ms : List DataChannelMessage) (log : List Effect)
    → messages_of (map message ms ++ log) ≡ ms ++ messages_of log
messages_of-map [] log = refl
messages_of-map (m ∷ ms) log = ap (λ l. m ∷ l) (messages_of-map ms log)

pub send_whole_lem :
    (json : Json) (bytes : Bytes) (incoming : List DataChannelMessage) (log : List Effect)
    → send_whole json works bytes (channels incoming log)
      ≡ (ok tt, channels incoming (log ++ map message (whole bytes)))
unfolding send_whole send_string_in_chunks perform flatten
send_whole_lem json bytes incoming log =
    ap (λ r. continue r (λ u. perform works (message delimiter)))
      (process_in_chunks-send_each (send_chunk json works) (bytes ∷ []) (channels incoming log)
        ∙ ap (λ b. send_each (send_chunk json works) (chunks_of b) (channels incoming log))
            (append-nil bytes)
        ∙ send_each-send_chunk json (chunks_of bytes) (channels incoming log))
    ∙ ap (λ l. (ok tt, channels incoming l))
        (append_assoc log (map message (map binary (chunks_of bytes))) (message delimiter ∷ [])
          ∙ ap (λ l. log ++ l)
              (sym (map-append message (map binary (chunks_of bytes)) (delimiter ∷ []))))

pub receive_string_from_chunks-whole :
    (bytes : Bytes) (rest : List DataChannelMessage)
    → receive_string_from_chunks (whole bytes ++ rest) ≡ (bytes, rest)
receive_string_from_chunks-whole bytes rest =
    ap receive_string_from_chunks
      (append_assoc (map binary (chunks_of bytes)) (delimiter ∷ []) rest)
    ∙ receive_string_from_chunks-chunks_of bytes rest

pub messages_of-only : (ms : List DataChannelMessage) → messages_of (map message ms) ≡ ms
messages_of-only [] = refl
messages_of-only (m ∷ ms) = ap (λ l. m ∷ l) (messages_of-only ms)

pub files_in-messages :
    (ms : List DataChannelMessage) (log : List Effect)
    → files_in (map message ms ++ log) ≡ files_in log
files_in-messages [] log = refl
files_in-messages (m ∷ ms) log = files_in-messages ms log
