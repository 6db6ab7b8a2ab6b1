-- ===== src/Webrtc/Handshake.antt =====
-- core/src/webrtc/webrtc.rs: what `send_offer` and `accept_offer` have in common before the file
-- loops, `receive_nonce`, the check of tokens, and texts in chunks with their delimiter.
pub mod Sending
pub mod Accepting
use localsend_uyava.Prelude.{
  Text-Eq, List, Bool, not, Bytes, Text, ascii, if◌then◌else◌, Result, ok, err,
}
use localsend_uyava.Crypto.Nonce.{validate_nonce}
use localsend_uyava.Crypto.Token.{
  Crypto, VerifyingTokenKey, Outcome, value, panic, map_err, verify_token_nonce,
}
use localsend_uyava.Webrtc.Chunks.{send_string_in_chunks, delimiter}
use localsend_uyava.Webrtc.Messages.{Json, RtcStatus}
use localsend_uyava.Webrtc.Io.{
  ◌>>◌, ◌>>=◌, Effect, message, status, Io, Task, pure, fail, recv, perform,
}
use localsend_uyava.Webrtc.Pin.{or_fail, text_message}
use localsend_uyava.Webrtc.Transfer.{send_chunk, tell}

-- `.map_err(…)`, `.ok_or_else(…)`: the text of the error, without what is formatted into it.
abbrev pub context {ℓ} : {A : Type ℓ} {S : Type 0} → Text → (S → Result A × S) → S → Result A × S
context e m s = (map_err e (m s).0, (m s).1)

unfoldable pub of_result : {A : Type 0} → Result A → Task A
of_result r io = (r, io)

-- A panic ends the spawned task, which its caller sees as an error.
unfoldable pub of_outcome : Outcome Bool → Task Bool
of_outcome (value b) = pure b
of_outcome panic = fail (ascii "panic")

-- A message that is awaited, and has to be a string.
unfoldable pub receive_text : Text → Task Bytes
unfolding or_fail
receive_text e = do
  received ← recv
  msg ← or_fail e received
  if msg.is_string then pure msg.contents else fail (ascii "Expected string message")

module _ (json : Json) (c : Crypto) where
  unfoldable pub receive_nonce : Task Bytes
  unfolding receive_text of_result or_fail
  receive_nonce = do
    bytes ← receive_text (ascii "Failed to receive nonce")
    msg ← or_fail (ascii "serde_json") (json.nonce.from_slice bytes)
    remote ← context (ascii "Failed to decode remote nonce") (of_result (c.decode msg.nonce))
    if not (validate_nonce remote) then fail (ascii "Invalid remote nonce") else pure remote

  unfoldable pub check_token : VerifyingTokenKey → Text → Bytes → Task Bool
  unfolding of_outcome
  check_token key token nonce = of_outcome (verify_token_nonce c key token nonce)

module _ (json : Json) (alive : List Effect → Effect → Bool) where
  -- `data_channel.send_text(…)`
  unfoldable pub send_text : Bytes → Task (Unit {0})
  send_text bytes = perform alive (text_message bytes)

  -- `send_string_in_chunks` with a callback that sends on the channel, and the delimiter.
  unfoldable pub send_whole : Bytes → Task (Unit {0})
  send_whole bytes = do
    send_string_in_chunks (send_chunk json alive) bytes
    perform alive (message delimiter)

  module _ (c : Crypto) where
    unfoldable pub send_nonce : Bytes → Task (Unit {0})
    unfolding send_text
    send_nonce local_nonce =
        context (ascii "Failed to send nonce")
          (send_text (json.nonce.to_string (record { nonce = c.encode local_nonce })))

  unfoldable pub told : Text → Result (Unit {0}) × Io → Result (Unit {0}) × Io
  told e (ok u, io') = (ok u, io')
  told e (err x, io') = (err x, (tell json alive (status (RtcStatus.error e)) io').1)

  -- The caller is told of an error with `try_send`, and the error is passed on.
  unfoldable pub or_status : Text → Task (Unit {0}) → Task (Unit {0})
  unfolding told
  or_status e m io = told e (m io)
