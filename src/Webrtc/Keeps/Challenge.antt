-- ===== src/Webrtc/Keeps/Challenge.antt =====
-- `handle_pin`, put together from its parts.
use localsend_uyava.Prelude.{
  Text-Eq, ◌≡◌, List, [], ◌∷◌, Option, some, Bool, true, false, Text, Bytes, ascii,
}
use localsend_uyava.Webrtc.Chunks.{DataChannelMessage}
use localsend_uyava.Webrtc.Messages.{Json, RtcStatus}
use localsend_uyava.Webrtc.Io.{Effect, status, pin_request, Task, ◌>>=◌, pure, recv, perform}
use localsend_uyava.Webrtc.Pin.{
  ChallengePinResult, or_fail, leave_pins, receive_response, enter, challenge, handle_from,
  handle_pin,
}
use localsend_uyava.Webrtc.Handshake.{send_text}
use localsend_uyava.Webrtc.Keeps.{
  Keeps, Any, Received, Keeps-bind, Keeps-pure, Keeps-fail, Keeps-or_fail, Keeps-perform, Keeps-if,
  Keeps-recv,
}
use localsend_uyava.Webrtc.Keeps.Pins.{IsQuiet, Keeps-receive_chunks, Keeps-send_text}

module _ (Q : Effect → Type 0) (W : DataChannelMessage → Type 0)
    (quiet : (e : Effect) → IsQuiet e → Q e) (json : Json)
    (alive : List Effect → Effect → Bool) where
  module _ {T : Type 0} (receive_in_chunks : Bool)
      (parse_response : Bytes → ChallengePinResult T) where
    abbrev pub AnyOf : T → Type 0
    AnyOf t = Unit

    Keeps-result :
        (r : ChallengePinResult T) (f : T → Task T) (m k : Task T) (g : Text → Task T)
        → ((t : T) → Keeps Q W AnyOf (f t))
        → Keeps Q W AnyOf m
        → Keeps Q W AnyOf k
        → ((e : Text) → Keeps Q W AnyOf (g e))
        → Keeps Q W AnyOf (elim r [
          | ChallengePinResult.ok t ↦ f t
          | ChallengePinResult.pin_required ↦ m
          | ChallengePinResult.too_many_attempts ↦ k
          | ChallengePinResult.parse_error e ↦ g e
        ])
    Keeps-result (ChallengePinResult.ok t) f m k g a b c d = a t
    Keeps-result ChallengePinResult.pin_required f m k g a b c d = b
    Keeps-result ChallengePinResult.too_many_attempts f m k g a b c d = c
    Keeps-result (ChallengePinResult.parse_error e) f m k g a b c d = d e

    Keeps-receive_response :
        (b : Bool) → Keeps Q W Any (receive_response json alive receive_in_chunks parse_response b)
    unfolding receive_response
    Keeps-receive_response true = Keeps-receive_chunks Q W quiet json alive
    Keeps-receive_response false =
        Keeps-bind Q W (Received Q W) Any recv _ (Keeps-recv Q W) λ o arrived.
          Keeps-bind Q W (λ msg. o ≡ some msg) Any
            (or_fail (ascii "Failed to receive initial message") o) _
            (Keeps-or_fail Q W (ascii "Failed to receive initial message") o)
            λ msg came.
              Keeps-if Q W Any msg.is_string _ _ (λ e. Keeps-pure Q W Any msg.contents tt)
                (λ e. Keeps-fail Q W {A = Bytes} Any (ascii "Expected string message"))

    Keeps-leave_pins : (answers : List (Option Text)) → Keeps Q W Any (leave_pins answers)
    unfolding leave_pins
    Keeps-leave_pins answers io h w = (h, w, tt)

    abbrev AnyResult : ChallengePinResult T → Type 0
    AnyResult r = Unit

    Keeps-enter :
        (answer : Option Text)
        → Keeps Q W AnyResult (enter json alive receive_in_chunks parse_response answer)
    unfolding enter send_text
    Keeps-enter answer =
        Keeps-bind Q W (λ p. answer ≡ some p) AnyResult
          (or_fail (ascii "PIN required but not provided") answer) _
          (Keeps-or_fail Q W (ascii "PIN required but not provided") answer)
          λ pin given.
            Keeps-bind Q W Any AnyResult (send_text json alive (pin_text pin)) (λ u. after)
              (Keeps-send_text Q W quiet json alive (pin_text pin)) λ u r. Keeps-after
      where
        pin_text : Text → Bytes
        pin_text pin = json.pin.to_string (record { pin = pin })

        after : Task (ChallengePinResult T)
        after =
            receive_response json alive receive_in_chunks parse_response receive_in_chunks
            >>= λ bytes. pure (parse_response bytes)

        Keeps-after : Keeps Q W AnyResult after
        Keeps-after =
            Keeps-bind Q W Any AnyResult
              (receive_response json alive receive_in_chunks parse_response receive_in_chunks)
              (λ bytes. pure (parse_response bytes)) (Keeps-receive_response receive_in_chunks)
              λ bytes r. Keeps-pure Q W AnyResult (parse_response bytes) tt

    Keeps-challenge :
        (answer : Option Text) (answers : List (Option Text))
        → Keeps Q W AnyResult (challenge json alive receive_in_chunks parse_response answer answers)
    unfolding challenge
    Keeps-challenge answer answers =
        Keeps-bind Q W Any AnyResult (perform alive pin_request)
          (λ u.
            leave_pins answers >>= λ u'. enter json alive receive_in_chunks parse_response answer)
          (Keeps-perform Q W alive pin_request (quiet pin_request tt))
          λ u r.
            Keeps-bind Q W Any AnyResult (leave_pins answers)
              (λ u'. enter json alive receive_in_chunks parse_response answer)
              (Keeps-leave_pins answers) λ u' r'. Keeps-enter answer

    Keeps-handle_from :
        (answers : List (Option Text))
        → Keeps Q W AnyOf (handle_from json alive receive_in_chunks parse_response answers)
    unfolding handle_from
    Keeps-handle_from [] =
        Keeps-bind Q W Any AnyOf (perform alive (status RtcStatus.pin_required)) _
          (Keeps-perform Q W alive (status RtcStatus.pin_required)
            (quiet (status RtcStatus.pin_required) tt))
          λ u r. Keeps-fail Q W AnyOf (ascii "Failed to send PIN request")
    Keeps-handle_from (answer ∷ answers) =
        Keeps-bind Q W Any AnyOf (perform alive (status RtcStatus.pin_required)) _
          (Keeps-perform Q W alive (status RtcStatus.pin_required)
            (quiet (status RtcStatus.pin_required) tt))
          λ u r.
            Keeps-bind Q W Any AnyOf
              (challenge json alive receive_in_chunks parse_response answer answers) _
              (Keeps-challenge answer answers)
              λ response r'.
                Keeps-result response _ _ _ _ (λ t. Keeps-pure Q W AnyOf t tt)
                  (Keeps-handle_from answers)
                  (Keeps-bind Q W Any AnyOf (perform alive (status RtcStatus.too_many_attempts)) _
                    (Keeps-perform Q W alive (status RtcStatus.too_many_attempts)
                      (quiet (status RtcStatus.too_many_attempts) tt))
                    λ u r''. Keeps-fail Q W AnyOf (ascii "Too many requests"))
                  (λ e. Keeps-fail Q W AnyOf e)

    pub Keeps-handle_pin : Keeps Q W AnyOf (handle_pin json alive receive_in_chunks parse_response)
    unfolding handle_pin
    Keeps-handle_pin io h w = Keeps-handle_from io.pins io h w
