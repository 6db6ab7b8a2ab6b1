-- ===== src/Webrtc/Chunks.antt =====
-- core/src/webrtc/webrtc.rs: streams and texts in chunks of 16 KiB, `process_in_chunks`,
-- `send_string_in_chunks`, `receive_string_from_chunks` and the delimiter.
pub mod Split
pub mod Sizes
pub mod RoundTrip
use localsend_uyava.Prelude.{
  ℕ, zero, suc, ◌*◌, ◌<◌, List, [], ◌∷◌, ◌++◌, Bool, true, false, ◌&&◌, Bytes, ascii, length, take,
  drop, leb, if◌then◌else◌, arith, Act, continue, ok,
}

-- `CHUNK_SIZE`
pub chunk_size : ℕ
chunk_size = 16 * 1024

pub chunk_size-pos : 0 < chunk_size
unfolding chunk_size
chunk_size-pos = omega arith

-- `DataChannelMessage`, a type of the crate webrtc.
pub record DataChannelMessage : Type 0 where
  pub is_string : Bool
  pub contents : Bytes

abbrev pub is_nil : Bytes → Bool
is_nil [] = true
is_nil (x ∷ xs) = false

-- `callback` sends one chunk on the channel. It is a parameter of `process_in_chunks`; what it works
-- on is the state `S`.
module _ {S : Type 0} (callback : Bytes → Act S (Unit {0})) where
  -- The inner loop, `while buffer.len() >= CHUNK_SIZE`, gives back what is left of the buffer.
  pub drain : ℕ → Bytes → Act S Bytes
  drain zero buffer s = (ok buffer, s)
  drain (suc fuel) buffer s =
      let more =
        continue (callback (take chunk_size buffer) s) (λ u. drain fuel (drop chunk_size buffer)) in
      if leb chunk_size (length buffer) then more else (ok buffer, s)

  -- The outer loop over what `rx` receives until it is closed. Each round of the inner loop takes
  -- `chunk_size` bytes, so the length of the buffer is fuel enough.
  pub process_from : Bytes → List Bytes → Act S (Unit {0})
  process_from buffer [] s = if is_nil buffer then (ok tt, s) else callback buffer s
  process_from buffer (received ∷ rx) s =
      continue (drain (length (buffer ++ received)) (buffer ++ received) s)
        (λ buffer'. process_from buffer' rx)

  unfoldable pub process_in_chunks : List Bytes → Act S (Unit {0})
  process_in_chunks rx = process_from [] rx

  unfoldable pub send_string_in_chunks : Bytes → Act S (Unit {0})
  send_string_in_chunks string = process_in_chunks (string ∷ [])

-- `receive_string_from_chunks`: the bytes up to the next string message, and what is left.
unfoldable pub receive_from : Bytes → List DataChannelMessage → Bytes × List DataChannelMessage
receive_from buffer [] = (buffer, [])
receive_from buffer (msg ∷ rx) =
    let more = receive_from (buffer ++ msg.contents) rx in
    if msg.is_string then (buffer, rx) else more

unfoldable pub receive_string_from_chunks :
    List DataChannelMessage → Bytes × List DataChannelMessage
unfolding receive_from
receive_string_from_chunks rx = receive_from [] rx

-- What `send_delimiter` sends.
unfoldable pub delimiter : DataChannelMessage
delimiter = record { is_string = true; contents = ascii "0" }

unfoldable pub is_delimiter : DataChannelMessage → Bool
is_delimiter msg = msg.is_string && leb (length msg.contents) 1
