-- ===== src/Webrtc/Session/Pins/Waiting.antt =====
-- What the two sides of an exchange of PINs have sent when their messages run out.
use mathlib.Core.List.{append_assoc}
use localsend_uyava.Prelude.{
  ℕ, ℕ-Eq, zero, suc, ◌+◌, ◌%◌, ◌^◌, ◌<◌, ◌≤◌, Text-Eq, ◌==◌, ◌≡◌, refl, ap, ◌∙◌, List, [], ◌∷◌,
  ◌++◌, map, length, take, All, Option, some, true, false, ltb, leb, leb_of_lt, Text, ascii, err,
  arith,
}
use localsend_uyava.Crypto.Token.{Crypto}
use localsend_uyava.Webrtc.Chunks.{DataChannelMessage}
use localsend_uyava.Webrtc.Messages.{Json, PinConfig, RtcStatus, RtcPinReceivingResponse}
use localsend_uyava.Webrtc.Io.{Effect, status, message, perform, recv, take_first}
use localsend_uyava.Webrtc.Pin.{
  or_fail, receive_pin, notify, verify_from, verify_pin, receive_response, enter, challenge,
  leave_pins, handle_from,
}
use localsend_uyava.Webrtc.Transfer.Sender.{works}
use localsend_uyava.Webrtc.Handshake.{send_text}
use localsend_uyava.Webrtc.Handshake.Accepting
use localsend_uyava.Webrtc.Session.{channels}
use localsend_uyava.Webrtc.Session.Pins.Rounds.{
  pin_said, required, rounds, entered, pins_said, parse,
}

abbrev pub IsWrong : PinConfig → Text → Type 0
IsWrong config pin = (pin == config.pin) ≡ false

abbrev pub nth : ℕ → List Text → Text → Text
nth n [] d = d
nth zero (x ∷ xs) d = x
nth (suc n) (x ∷ xs) d = nth n xs d

pub take-length : (xs : List Text) → take (length xs) xs ≡ xs
take-length [] = refl
take-length (x ∷ xs) = ap (λ l. x ∷ l) (take-length xs)

pub nth-length : (xs : List Text) (d : Text) → nth (length xs) xs d ≡ d
nth-length [] d = refl
nth-length (x ∷ xs) d = nth-length xs d

pub length-take_le : (n : ℕ) (xs : List Text) → n ≤ length xs → length (take n xs) ≡ n
length-take_le zero xs h = refl
length-take_le (suc n) [] h = absurd (omega (arith, h))
length-take_le (suc n) (x ∷ xs) h = ap suc (length-take_le n xs (omega (arith, h)))

pub All-take : (P : Text → Type 0) (n : ℕ) (xs : List Text) → All P xs → All P (take n xs)
All-take P zero xs h = tt
All-take P (suc n) [] h = tt
All-take P (suc n) (x ∷ xs) (p, h) = (p, All-take P n xs h)

module _ (json : Json) where
  -- That many answers to wrong PINs.
  abbrev pub requests : ℕ → List DataChannelMessage
  requests zero = []
  requests (suc n) = required json ∷ requests n

  pub pins_said-take :
      (n : ℕ) (wrong : List Text) (d : Text)
      → n < length wrong
      → pins_said json (take n wrong) (nth n wrong d) ≡ map (pin_said json) (take (suc n) wrong)
  pins_said-take n [] d h = absurd (omega (arith, h))
  pins_said-take zero (w ∷ ws) d h = refl
  pins_said-take (suc n) (w ∷ ws) d h =
      ap (λ l. pin_said json w ∷ l) (pins_said-take n ws d (omega (arith, h)))

  -- After so many answers `handle_pin` has sent one PIN more.
  pub handle_from-requests :
      (n : ℕ) (wrong : List Text) (pin : Text) (log : List Effect) (before : List (Option Text))
      → n ≤ length wrong
      → (handle_from json works false
          (parse json)
          (entered json wrong pin)
          (record { incoming = requests n; pins = before; log = log })).1.log
        ≡ rounds json log (take n wrong) (nth n wrong pin)
  unfolding handle_from challenge enter leave_pins or_fail receive_response recv take_first perform
  handle_from-requests zero [] pin log before h = refl
  handle_from-requests zero (w ∷ ws) pin log before h = refl
  handle_from-requests (suc n) [] pin log before h = absurd (omega (arith, h))
  handle_from-requests (suc n) (w ∷ ws) pin log before h =
      rw (json.pin_receiving.from_slice-to_string RtcPinReceivingResponse.pin_required)
        (handle_from-requests n ws pin _ _ (omega (arith, h)))

  module _ (c : Crypto) (config : PinConfig) where
    verify_from-waits :
        (pins : List Text) (fuel try : ℕ) (current : Text) (log : List Effect)
        → config.max_tries < 2 ^ 8
        → 0 < try
        → try + length pins < config.max_tries
        → length pins < fuel
        → IsWrong config current
        → All (IsWrong config) pins
        → verify_from json works config
            (Accepting.send_pin_result json works c)
            fuel
            false
            current
            try
            (channels (map (pin_said json) pins) log)
          ≡ (
            err (ascii "Failed to receive pin"),
            channels [] (log ++ map message (requests (suc (length pins)))),
          )
    unfolding verify_from notify receive_pin or_fail recv take_first perform
        Accepting.send_pin_result send_text
    verify_from-waits pins zero try current log small pos left lt other all =
        absurd (omega (arith, lt))
    verify_from-waits [] (suc fuel) try current log small pos left lt other all =
        let more : leb config.max_tries try ≡ false =
          leb_of_lt config.max_tries try (omega (arith, left)) in
        let later : ltb 0 try ≡ true = ground (arith, pos) in rw (other, more, later) refl
    verify_from-waits (w ∷ ws) (suc fuel) try current log small pos left lt other (wrong, all) =
        let more : leb config.max_tries try ≡ false =
          leb_of_lt config.max_tries try (omega (arith, left)) in
        let later : ltb 0 try ≡ true = ground (arith, pos) in
        let next : (try + 1) % 256 ≡ try + 1 = omega (arith, small, left) in
        rw (other, more, later, json.pin.from_slice-to_string (record { pin = w }), next)
          (verify_from-waits ws fuel (try + 1) w (log ++ message (required json) ∷ []) small
              (omega arith) (omega (arith, left)) (omega (arith, lt)) wrong all
            ∙ ap (λ l. (err (ascii "Failed to receive pin"), channels [] l))
                (append_assoc log (message (required json) ∷ [])
                  (map message (requests (suc (length ws))))))

    first-waits :
        (fuel : ℕ) (w : Text) (ws : List Text) (log : List Effect)
        → config.max_tries < 2 ^ 8
        → suc (length ws) < config.max_tries
        → length ws < fuel
        → IsWrong config []
        → All (IsWrong config) (w ∷ ws)
        → verify_from json works config
            (Accepting.send_pin_result json works c)
            (suc fuel)
            false
            []
            0
            (channels (map (pin_said json) (w ∷ ws)) log)
          ≡ (
            err (ascii "Failed to receive pin"),
            channels [] (log ++ map message (requests (suc (length ws)))),
          )
    unfolding verify_from notify receive_pin or_fail recv take_first
    first-waits fuel w ws log small left lt other (wrong, all) =
        let more : leb config.max_tries 0 ≡ false =
          leb_of_lt config.max_tries 0 (omega (arith, left)) in
        rw (other, more, json.pin.from_slice-to_string (record { pin = w }))
          (verify_from-waits ws fuel 1 w log small (omega arith) (omega (arith, left)) lt wrong all)

    -- The receiving peer has answered each wrong PIN, and waits for the next.
    pub ask_pin-waits :
        (w : Text) (ws : List Text)
        → config.max_tries < 2 ^ 8
        → suc (length ws) < config.max_tries
        → IsWrong config []
        → All (IsWrong config) (w ∷ ws)
        → (Accepting.ask_pin json works c
            (some config)
            (channels (map (pin_said json) (w ∷ ws)) [])).1.log
          ≡ status RtcStatus.pin_required ∷ map message (requests (suc (length ws)))
    unfolding Accepting.ask_pin verify_pin perform
    ask_pin-waits w ws small left other all =
        rw
          (first-waits 256 w ws (status RtcStatus.pin_required ∷ []) small left
            (omega (arith, small, left)) other all)
          refl
