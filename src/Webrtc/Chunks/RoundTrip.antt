-- ===== src/Webrtc/Chunks/RoundTrip.antt =====
-- A text that is sent in chunks and received again.
use mathlib.Core.List.{append_assoc, append-nil}
use localsend_uyava.Prelude.{
  ◌≡◌, sym, ap, ◌∙◌, List, [], ◌∷◌, ◌++◌, map, flatten, false, Bytes, Act, ok,
}
use localsend_uyava.Webrtc.Chunks.{
  DataChannelMessage, send_string_in_chunks, receive_from, receive_string_from_chunks, delimiter,
}
use localsend_uyava.Webrtc.Chunks.Split.{chunks_of, send_each, process_in_chunks-send_each}
use localsend_uyava.Webrtc.Chunks.Sizes.{chunks_of_lem}

abbrev pub binary : Bytes → DataChannelMessage
binary b = record { is_string = false; contents = b }

-- The callback of both peers, `data_channel.send(&chunk)`, on a channel that works: the messages
-- on their way.
abbrev pub send : Bytes → Act (List DataChannelMessage) (Unit {0})
send chunk channel = (ok tt, channel ++ binary chunk ∷ [])

send_each-send :
    (cs : List Bytes) (channel : List DataChannelMessage)
    → send_each send cs channel ≡ (ok tt, channel ++ map binary cs)
unfolding send_each
send_each-send [] channel = ap (λ c. (ok tt, c)) (sym (append-nil channel))
send_each-send (c ∷ cs) channel =
    send_each-send cs (channel ++ binary c ∷ [])
    ∙ ap (λ c. (ok tt, c)) (append_assoc channel (binary c ∷ []) (map binary cs))

receive_from-binary :
    (buffer : Bytes) (cs : List Bytes) (rest : List DataChannelMessage)
    → receive_from buffer (map binary cs ++ delimiter ∷ rest) ≡ (buffer ++ flatten cs, rest)
unfolding receive_from delimiter flatten
receive_from-binary buffer [] rest = ap (λ b. (b, rest)) (sym (append-nil buffer))
receive_from-binary buffer (c ∷ cs) rest =
    receive_from-binary (buffer ++ c) cs rest
    ∙ ap (λ b. (b, rest)) (append_assoc buffer c (flatten cs))

-- The chunks of a text and a delimiter are read as the text.
pub receive_string_from_chunks-chunks_of :
    (text : Bytes) (rest : List DataChannelMessage)
    → receive_string_from_chunks (map binary (chunks_of text) ++ delimiter ∷ rest) ≡ (text, rest)
unfolding receive_string_from_chunks flatten
receive_string_from_chunks-chunks_of text rest =
    receive_from-binary [] (chunks_of text) rest ∙ ap (λ b. (b, rest)) (chunks_of_lem text).0

-- On a working channel, `send_string_in_chunks` puts messages on it that, with a delimiter behind
-- them, `receive_string_from_chunks` reads back as the text, leaving what comes after.
pub receive_string_from_chunks-send_string_in_chunks :
    (text : Bytes) (channel rest : List DataChannelMessage)
    → (sent : List DataChannelMessage) × (send_string_in_chunks send text channel
        ≡ (ok tt, channel ++ sent))
      × (receive_string_from_chunks (sent ++ delimiter ∷ rest) ≡ (text, rest))
unfolding send_string_in_chunks flatten
receive_string_from_chunks-send_string_in_chunks text channel rest = (
  map binary (chunks_of text),
  process_in_chunks-send_each send (text ∷ []) channel
      ∙ ap (λ b. send_each send (chunks_of b) channel) (append-nil text)
      ∙ send_each-send (chunks_of text) channel,
  receive_string_from_chunks-chunks_of text rest,
)
