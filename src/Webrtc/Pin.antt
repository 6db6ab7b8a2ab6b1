-- ===== src/Webrtc/Pin.antt =====
-- core/src/webrtc/webrtc.rs: `verify_pin`, where this peer asks for a PIN, and `handle_pin`, where
-- the other peer does.
pub mod Verify
pub mod Complete
pub mod Fuel
use localsend_uyava.Prelude.{
  ℕ, Text-Eq, zero, suc, ◌+◌, ◌%◌, ◌^◌, List, [], ◌∷◌, Option, none, some, Bool, true, false, not,
  ◌||◌, Bytes, Text, ascii, ltb, leb, ◌==◌, if◌then◌else◌, Result,
}
use localsend_uyava.Webrtc.Chunks.{receive_string_from_chunks}
use localsend_uyava.Webrtc.Messages.{Json, PinConfig, RtcStatus}
use localsend_uyava.Webrtc.Io.{
  ◌>>◌, ◌>>=◌, Effect, status, message, pin_request, Task, pure, fail, attempt, recv, perform,
}

pub data VerifyPinResult : Type 0 where
  pin_required too_many_attempts : VerifyPinResult

pub data ChallengePinResult (T : Type 0) : Type 0 where
  ok : T → ChallengePinResult T
  pin_required too_many_attempts : ChallengePinResult T
  parse_error : Text → ChallengePinResult T

unfoldable pub or_fail : {A : Type 0} → Text → Option A → Task A
or_fail e none = fail e
or_fail e (some a) = pure a

-- `receive_string_from_chunks(receive_rx)`
unfoldable pub receive_chunks : Task Bytes
receive_chunks io = (
  Result.ok (receive_string_from_chunks io.incoming).0,
  record io { incoming = (receive_string_from_chunks io.incoming).1 },
)

-- `pin_tx.send(…)` has been answered.
unfoldable pub leave_pins : List (Option Text) → Task (Unit {0})
leave_pins answers io = (Result.ok tt, record io { pins = answers })

abbrev pub text_message : Bytes → Effect
text_message bytes = message (record { is_string = true; contents = bytes })

module _ (json : Json) where
  -- The message that `verify_pin` waits for. That it is a string message is not asked.
  unfoldable pub receive_pin : Task Text
  unfolding or_fail
  receive_pin = do
    received ← recv
    msg ← or_fail (ascii "Failed to receive pin") received
    request ← or_fail (ascii "serde_json") (json.pin.from_slice msg.contents)
    pure request.pin

module _ (json : Json) (alive : List Effect → Effect → Bool) where
  module _ (config : PinConfig) (send_result : VerifyPinResult → Task (Unit {0})) where
    -- `wait_buffer_empty` waits and changes nothing.
    unfoldable pub give_up : Task (Unit {0})
    give_up = do
      attempt (send_result too_many_attempts)
      perform alive (status RtcStatus.too_many_attempts)
      fail (ascii "Too many requests")

    unfoldable pub notify : Bool → Task (Unit {0})
    notify false = pure tt
    notify true = send_result pin_required

    -- The loop; `pin_try` is a u8, and the fuel does not depend on `max_tries`.
    unfoldable pub verify_from : ℕ → Bool → Text → ℕ → Task (Unit {0})
    verify_from zero notice remote_pin pin_try = fail (ascii "fuel")
    verify_from (suc fuel) notice remote_pin pin_try =
        let again : Task (Unit {0}) = do
          notify (notice || ltb 0 pin_try)
          remote_pin' ← receive_pin json
          verify_from fuel false remote_pin' ((pin_try + 1) % 2 ^ 8)
        in if remote_pin == config.pin
          then pure tt
          else if leb config.max_tries pin_try
          then give_up
          else again

    unfoldable pub verify_pin : Bool → Task (Unit {0})
    verify_pin send_initial_notice = do
      perform alive (status RtcStatus.pin_required)
      verify_from 257 send_initial_notice [] 0

  -- `handle_pin`: each round takes one answer of the user, and the last leaves the rest.
  module _ {T : Type 0} (receive_in_chunks : Bool)
      (parse_response : Bytes → ChallengePinResult T) where
    unfoldable pub receive_response : Bool → Task Bytes
    unfolding or_fail receive_chunks
    receive_response true = receive_chunks
    receive_response false = do
      received ← recv
      msg ← or_fail (ascii "Failed to receive initial message") received
      if msg.is_string then pure msg.contents else fail (ascii "Expected string message")

    -- The answer is sent, and the other peer's response awaited.
    unfoldable pub enter : Option Text → Task (ChallengePinResult T)
    unfolding or_fail receive_response
    enter answer = do
      pin ← or_fail (ascii "PIN required but not provided") answer
      perform alive (text_message (json.pin.to_string (record { pin = pin })))
      bytes ← receive_response receive_in_chunks
      pure (parse_response bytes)

    -- One round up to the other peer's response.
    unfoldable pub challenge : Option Text → List (Option Text) → Task (ChallengePinResult T)
    unfolding leave_pins enter
    challenge answer answers = do perform alive pin_request; leave_pins answers; enter answer

    unfoldable pub handle_from : List (Option Text) → Task T
    handle_from [] = do
      perform alive (status RtcStatus.pin_required)
      fail (ascii "Failed to send PIN request")
    handle_from (answer ∷ answers) =
        let again : Task T = handle_from answers in
        do
          perform alive (status RtcStatus.pin_required)
          response ← challenge answer answers
          elim response [
            | ok result ↦ pure result
            | pin_required ↦ again
            | too_many_attempts ↦ do
              perform alive (status RtcStatus.too_many_attempts)
              fail (ascii "Too many requests")
            | parse_error e ↦ fail e
          ]

    unfoldable pub handle_pin : Task T
    handle_pin io = handle_from io.pins io
