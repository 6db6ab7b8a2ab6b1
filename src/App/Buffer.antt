-- ===== src/App/Buffer.antt =====
-- app/rust/src/util/bytes.rs: `buffer_receiver`, which joins small pieces of a stream.
pub mod Joined
use localsend_uyava.Prelude.{
  ℕ, ◌*◌, List, [], ◌∷◌, ◌++◌, Bytes, length, leb, if◌then◌else◌, Act, continue, ok, arith, ◌<◌,
}
use localsend_uyava.Webrtc.Chunks.{is_nil}

-- `BUFFER_SIZE`
pub buffer_size : ℕ
buffer_size = 1024 * 1024

pub buffer_size-pos : 0 < buffer_size
unfolding buffer_size
buffer_size-pos = omega arith

-- `send` is `tx.send(…)`, whose error ends the task.
module _ {S : Type 0} (send : Bytes → Act S (Unit {0})) where
  -- The loop over what `rx_input` gives until it is closed, and what is left in the buffer.
  unfoldable pub buffer_from : Bytes → List Bytes → Act S (Unit {0})
  buffer_from buffer [] s = if is_nil buffer then (ok tt, s) else send buffer s
  buffer_from buffer (received ∷ rx) s =
      let extended = buffer ++ received in
      let flushed = continue (send extended s) (λ u. buffer_from [] rx) in
      let kept = buffer_from extended rx s in
      if leb buffer_size (length extended) then flushed else kept

  unfoldable pub buffer_receiver : List Bytes → Act S (Unit {0})
  unfolding buffer_from
  buffer_receiver rx = buffer_from [] rx
