-- ===== src/Webrtc/Session/Pins/Rounds.antt =====
-- core/src/webrtc/webrtc.rs: `handle_pin` of the sending peer, with an answer to each PIN in the
-- order they come.
use mathlib.Core.List.{append_assoc, append-nil}
use localsend_uyava.Prelude.{
  ℕ-Eq, Text-Eq, ◌≡◌, refl, ap, ◌∙◌, List, [], ◌∷◌, ◌++◌, Option, some, false, Bytes, Text, ok,
}
use localsend_uyava.Crypto.Token.{}
use localsend_uyava.Webrtc.Chunks.{DataChannelMessage}
use localsend_uyava.Webrtc.Messages.{Json, RtcStatus, RtcPinReceivingResponse}
use localsend_uyava.Webrtc.Io.{Effect, status, message, pin_request, perform, recv, take_first}
use localsend_uyava.Webrtc.Pin.{
  ChallengePinResult, or_fail, receive_response, enter, challenge, leave_pins, handle_from,
}
use localsend_uyava.Webrtc.Transfer.Sender.{works}
use localsend_uyava.Webrtc.Handshake.{}
use localsend_uyava.Webrtc.Handshake.Sending
use localsend_uyava.Webrtc.Session.{said, messages_of}

pub messages_of-append :
    (xs ys : List Effect) → messages_of (xs ++ ys) ≡ messages_of xs ++ messages_of ys
messages_of-append [] ys = refl
messages_of-append (message m ∷ xs) ys = ap (λ l. m ∷ l) (messages_of-append xs ys)
messages_of-append (status s ∷ xs) ys = messages_of-append xs ys
messages_of-append (x ∷ xs) ys = messages_of-append xs ys

module _ (json : Json) where
  -- A PIN as a message, and the two answers to it.
  abbrev pub pin_said : Text → DataChannelMessage
  pin_said pin = said (json.pin.to_string (record { pin = pin }))

  abbrev pub required : DataChannelMessage
  required = said (json.pin_receiving.to_string RtcPinReceivingResponse.pin_required)

  abbrev pub accepted : DataChannelMessage
  accepted = said (json.pin_receiving.to_string RtcPinReceivingResponse.ok)

  -- One round of `handle_pin`, as it is logged, and all of them.
  abbrev round : List Effect → Text → List Effect
  round log pin =
      ((log ++ status RtcStatus.pin_required ∷ []) ++ pin_request ∷ [])
      ++ message (pin_said pin) ∷ []

  abbrev pub rounds : List Effect → List Text → Text → List Effect
  rounds log [] pin = round log pin
  rounds log (w ∷ ws) pin = rounds (round log w) ws pin

  -- The answers to wrong PINs and the right one.
  abbrev pub responses : List Text → List DataChannelMessage
  responses [] = accepted ∷ []
  responses (w ∷ ws) = required ∷ responses ws

  abbrev pub entered : List Text → Text → List (Option Text)
  entered [] pin = some pin ∷ []
  entered (w ∷ ws) pin = some w ∷ entered ws pin

  abbrev pub pins_said : List Text → Text → List DataChannelMessage
  pins_said [] pin = pin_said pin ∷ []
  pins_said (w ∷ ws) pin = pin_said w ∷ pins_said ws pin

  abbrev pub parse : Bytes → ChallengePinResult (Unit {0})
  parse bytes = Sending.pin_answer (json.pin_receiving.from_slice bytes)

  pub handle_from_run :
      (wrong : List Text) (pin : Text) (log : List Effect) (before : List (Option Text))
      → handle_from json works false parse
          (entered wrong pin)
          (record { incoming = responses wrong; pins = before; log = log })
        ≡ (ok tt, record { incoming = []; pins = []; log = rounds log wrong pin })
  unfolding handle_from challenge enter leave_pins or_fail receive_response recv take_first perform
  handle_from_run [] pin log before =
      rw (json.pin_receiving.from_slice-to_string RtcPinReceivingResponse.ok) refl
  handle_from_run (w ∷ ws) pin log before =
      rw (json.pin_receiving.from_slice-to_string RtcPinReceivingResponse.pin_required)
        (handle_from_run ws pin (round log w) _)

  messages-round :
      (log : List Effect) (pin : Text)
      → messages_of (round log pin) ≡ messages_of log ++ pin_said pin ∷ []
  messages-round log pin = simp (messages_of-append, append-nil)

  pub messages-rounds :
      (log : List Effect) (wrong : List Text) (pin : Text)
      → messages_of (rounds log wrong pin) ≡ messages_of log ++ pins_said wrong pin
  messages-rounds log [] pin = messages-round log pin
  messages-rounds log (w ∷ ws) pin =
      messages-rounds (round log w) ws pin
      ∙ (ap (λ l. l ++ pins_said ws pin) (messages-round log w)
          ∙ append_assoc (messages_of log) (pin_said w ∷ []) (pins_said ws pin))
