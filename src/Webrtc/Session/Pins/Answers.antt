-- ===== src/Webrtc/Session/Pins/Answers.antt =====
-- `verify_pin` of the receiving peer, with wrong PINs and then the right one.
use mathlib.Core.List.{append_assoc}
use localsend_uyava.Prelude.{
  ℕ, ℕ-Eq, zero, suc, ◌+◌, ◌%◌, ◌^◌, ◌<◌, Text-Eq, ==-refl, ◌≡◌, refl, ◌∙◌, List, [], ◌∷◌, ◌++◌,
  length, All, some, true, false, ltb, leb, leb_of_lt, Text, ok, arith,
}
use localsend_uyava.Crypto.Token.{Crypto}
use localsend_uyava.Webrtc.Messages.{Json, PinConfig, RtcStatus}
use localsend_uyava.Webrtc.Io.{Effect, status, message, Io, perform, recv, take_first}
use localsend_uyava.Webrtc.Pin.{or_fail, receive_pin, notify, verify_from, verify_pin}
use localsend_uyava.Webrtc.Transfer.Sender.{works}
use localsend_uyava.Webrtc.Handshake.{send_text}
use localsend_uyava.Webrtc.Handshake.Accepting
use localsend_uyava.Webrtc.Session.{channels, messages_of}
use localsend_uyava.Webrtc.Session.Pins.Waiting.{IsWrong}
use localsend_uyava.Webrtc.Session.Pins.Rounds.{
  required, accepted, responses, pins_said, messages_of-append,
}

module _ (json : Json) (c : Crypto) (config : PinConfig) where
  -- The log of `verify_from` from its second round on.
  abbrev asked : List Effect → List Text → List Effect
  asked log [] = log ++ message (required json) ∷ []
  asked log (w ∷ ws) = asked (log ++ message (required json) ∷ []) ws

  verify_from_run :
      (wrong : List Text) (fuel try : ℕ) (current : Text) (log : List Effect)
      → config.max_tries < 2 ^ 8
      → 0 < try
      → try + length wrong < config.max_tries
      → length wrong + 1 < fuel
      → IsWrong config current
      → All (IsWrong config) wrong
      → verify_from json works config
          (Accepting.send_pin_result json works c)
          fuel
          false
          current
          try
          (channels (pins_said json wrong config.pin) log)
        ≡ (ok tt, channels [] (asked log wrong))
  unfolding verify_from notify receive_pin or_fail recv take_first perform Accepting.send_pin_result
      send_text
  verify_from_run wrong zero try current log small pos left lt other all =
      absurd (omega (arith, lt))
  verify_from_run [] (suc zero) try current log small pos left lt other all =
      absurd (omega (arith, lt))
  verify_from_run [] (suc (suc fuel)) try current log small pos left lt other all =
      let more : leb config.max_tries try ≡ false =
        leb_of_lt config.max_tries try (omega (arith, left)) in
      let later : ltb 0 try ≡ true = ground (arith, pos) in
      rw
        (
          other,
          more,
          later,
          json.pin.from_slice-to_string (record { pin = config.pin }),
          ==-refl config.pin,
        )
        refl
  verify_from_run (w ∷ ws) (suc fuel) try current log small pos left lt other (wrong, all) =
      let more : leb config.max_tries try ≡ false =
        leb_of_lt config.max_tries try (omega (arith, left)) in
      let later : ltb 0 try ≡ true = ground (arith, pos) in
      let next : (try + 1) % 256 ≡ try + 1 = omega (arith, small, left) in
      rw (other, more, later, json.pin.from_slice-to_string (record { pin = w }), next)
        (verify_from_run ws fuel (try + 1) w (log ++ message (required json) ∷ []) small
          (omega arith) (omega (arith, left)) (omega (arith, lt)) wrong all)

  verify_from_done :
      (fuel try : ℕ) (io : Io)
      → 0 < fuel
      → verify_from json works config
          (Accepting.send_pin_result json works c)
          fuel
          false
          config.pin
          try
          io
        ≡ (ok tt, io)
  unfolding verify_from
  verify_from_done zero try io h = absurd (omega (arith, h))
  verify_from_done (suc fuel) try io h = rw (==-refl config.pin) refl

  abbrev pub asked_after : List Effect → List Text → List Effect
  asked_after log [] = log
  asked_after log (w ∷ ws) = asked log ws

  first_round :
      (wrong : List Text) (fuel : ℕ) (log : List Effect)
      → config.max_tries < 2 ^ 8
      → length wrong < config.max_tries
      → length wrong + 1 < fuel
      → IsWrong config []
      → All (IsWrong config) wrong
      → verify_from json works config
          (Accepting.send_pin_result json works c)
          (suc fuel)
          false
          []
          0
          (channels (pins_said json wrong config.pin) log)
        ≡ (ok tt, channels [] (asked_after log wrong))
  unfolding verify_from notify receive_pin or_fail recv take_first
  first_round [] fuel log small left lt other all =
      let more : leb config.max_tries 0 ≡ false =
        leb_of_lt config.max_tries 0 (omega (arith, left)) in
      rw (other, more, json.pin.from_slice-to_string (record { pin = config.pin }))
        (verify_from_done fuel 1 (channels [] log) (omega (arith, lt)))
  first_round (w ∷ ws) fuel log small left lt other (wrong, all) =
      let more : leb config.max_tries 0 ≡ false =
        leb_of_lt config.max_tries 0 (omega (arith, left)) in
      rw (other, more, json.pin.from_slice-to_string (record { pin = w }))
        (verify_from_run ws fuel 1 w log small (omega arith) (omega (arith, left))
          (omega (arith, lt)) wrong all)

  messages-asked :
      (log : List Effect) (ws : List Text)
      → messages_of (asked log ws ++ message (accepted json) ∷ [])
        ≡ messages_of log ++ required json ∷ responses json ws
  messages-asked log [] = simp (messages_of-append, append_assoc)
  messages-asked log (w ∷ ws) =
      messages-asked (log ++ message (required json) ∷ []) ws
      ∙ simp (messages_of-append, append_assoc)

  pub messages-answers :
      (wrong : List Text)
      → messages_of
          (asked_after (status RtcStatus.pin_required ∷ []) wrong ++ message (accepted json) ∷ [])
        ≡ responses json wrong
  messages-answers [] = refl
  messages-answers (w ∷ ws) = messages-asked (status RtcStatus.pin_required ∷ []) ws

  pub ask_pin_run :
      (wrong : List Text)
      → config.max_tries < 2 ^ 8
      → length wrong < config.max_tries
      → IsWrong config []
      → All (IsWrong config) wrong
      → Accepting.ask_pin json works c (some config) (channels (pins_said json wrong config.pin) [])
        ≡ (
          ok tt,
          channels [] (
              asked_after (status RtcStatus.pin_required ∷ []) wrong
              ++ message (accepted json) ∷ []),
        )
  unfolding Accepting.ask_pin verify_pin perform send_text
  ask_pin_run wrong small left other all =
      rw
        (first_round wrong 256 (status RtcStatus.pin_required ∷ []) small left
          (omega (arith, small, left)) other all)
        refl
