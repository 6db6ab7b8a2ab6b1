-- ===== src/Webrtc/Session/Pins.antt =====
-- core/src/webrtc/webrtc.rs: `handle_pin` of the sending peer against `verify_pin` of the receiving
-- peer.
pub mod Rounds
pub mod Waiting
pub mod Answers
use localsend_uyava.Prelude.{
  ℕ, ℕ-Eq, zero, suc, ◌^◌, ◌<◌, ◌≤◌, map, take, sym, Text-Eq, ◌≡◌, refl, ap, ◌∙◌, List, [], ◌∷◌,
  ◌++◌, length, All, some, true, Text, Result, ok, arith,
}
use localsend_uyava.Crypto.Token.{Crypto, VerifyingTokenKey}
use localsend_uyava.Webrtc.Messages.{Json, PinConfig, RtcStatus}
use localsend_uyava.Webrtc.Io.{status, message, Io}
use localsend_uyava.Webrtc.Pin.{handle_pin}
use localsend_uyava.Webrtc.Transfer.Sender.{works}
use localsend_uyava.Webrtc.Handshake.Sending
use localsend_uyava.Webrtc.Handshake.Accepting
use localsend_uyava.Webrtc.Chunks.{DataChannelMessage}
use localsend_uyava.Webrtc.Session.{channels, messages_of, messages_of-only}
use localsend_uyava.Webrtc.Session.Pins.Waiting.{
  IsWrong, nth, take-length, nth-length, length-take_le, All-take, requests, pins_said-take,
  handle_from-requests, ask_pin-waits,
}
use localsend_uyava.Webrtc.Session.Pins.Rounds.{
  pin_said, accepted, rounds, responses, entered, pins_said, handle_from_run, messages-rounds,
}
use localsend_uyava.Webrtc.Session.Pins.Answers.{asked_after, messages-answers, ask_pin_run}

module _ (json : Json) (c : Crypto) (config : PinConfig) where
  module _ (parse_public_key : Text → Text → Result VerifyingTokenKey) (wrong : List Text) where
    -- The two sides, where the user enters these wrong PINs and then the right one.
    abbrev pub enters : List DataChannelMessage → Result (Unit {0}) × Io
    enters incoming =
        Sending.enter_pin json works c parse_public_key true
          (record { incoming = incoming; pins = entered json wrong config.pin; log = [] })

    abbrev pub asks : List DataChannelMessage → Result (Unit {0}) × Io
    asks incoming = Accepting.ask_pin json works c (some config) (channels incoming [])

    -- What the receiving peer has sent after a number of turns. In a turn each side runs on what
    -- the other has sent in the turns before, until its messages run out.
    abbrev pub turn : List DataChannelMessage → List DataChannelMessage
    turn heard = messages_of (asks (messages_of (enters heard).1.log)).1.log

    abbrev pub turns : ℕ → List DataChannelMessage
    turns zero = []
    turns (suc n) = turn (turns n)

    said_after :
        (n : ℕ)
        → n ≤ length wrong
        → messages_of (enters (requests json n)).1.log
          ≡ pins_said json (take n wrong) (nth n wrong config.pin)
    unfolding Sending.enter_pin handle_pin
    said_after n h =
        ap messages_of (handle_from-requests json n wrong config.pin [] _ h)
        ∙ messages-rounds json [] (take n wrong) (nth n wrong config.pin)

    module _ (small : config.max_tries < 2 ^ 8) (left : length wrong < config.max_tries)
        (other : IsWrong config []) (all : All (IsWrong config) wrong) where
      answered :
          (n : ℕ) (pins : List Text)
          → length pins ≡ suc n
          → n < length wrong
          → All (IsWrong config) pins
          → messages_of (asks (map (pin_said json) pins)).1.log ≡ requests json (suc n)
      answered n [] e h given = absurd (omega (arith, e))
      answered n (w ∷ ws) e h given =
          ap messages_of
            (ask_pin-waits json c config w ws small (omega (arith, left, e, h)) other given)
          ∙ (messages_of-only (requests json (suc (length ws))) ∙ ap (requests json) e)

      -- In each turn but the last one wrong PIN more is refused.
      turns-requests : (n : ℕ) → n ≤ length wrong → turns n ≡ requests json n
      turns-requests zero h = refl
      turns-requests (suc n) h =
          ap turn (turns-requests n (omega (arith, h)))
          ∙ (ap (λ ms. messages_of (asks ms).1.log)
                (said_after n (omega (arith, h))
                  ∙ pins_said-take json n wrong config.pin (omega (arith, h)))
              ∙ answered n (take (suc n) wrong) (length-take_le (suc n) wrong h) (omega (arith, h))
                  (All-take (IsWrong config) (suc n) wrong all))

      last_said :
          messages_of (enters (requests json (length wrong))).1.log
          ≡ pins_said json wrong config.pin
      last_said =
          said_after (length wrong) (omega arith)
          ∙ (ap (λ ws. pins_said json ws (nth (length wrong) wrong config.pin)) (take-length wrong)
              ∙ ap (pins_said json wrong) (nth-length wrong config.pin))

      last_turn : turns (suc (length wrong)) ≡ responses json wrong
      last_turn =
          ap turn (turns-requests (length wrong) (omega arith))
          ∙ (ap (λ ms. messages_of (asks ms).1.log) last_said
              ∙ (ap (λ r. messages_of r.1.log)
                    (ask_pin_run json c config wrong small left other all)
                  ∙ messages-answers json c config wrong))

      -- Where the receiving peer has set a PIN that is not empty, on channels that work: if the
      -- user of the sending peer enters wrong PINs, fewer than `max_tries`, a u8, and then the
      -- right one, then from nothing sent, after one turn for each wrong PIN and one more, in each
      -- of which both sides run on no more than the other has sent by then, `handle_pin` of the
      -- sending peer and the receiving peer's part, on what the other has sent, end normally, with
      -- no message left over and no more to come from the receiving peer.
      pub pins_complete :
          (sender receiver : Io) × (enters (turns (suc (length wrong))) ≡ (ok tt, sender))
          × (asks (messages_of sender.log) ≡ (ok tt, receiver))
          × (messages_of receiver.log ≡ turns (suc (length wrong)))
          × (sender.incoming ≡ [])
          × (receiver.incoming ≡ [])
      unfolding Sending.enter_pin handle_pin
      pins_complete = (
        record { incoming = []; pins = []; log = rounds json [] wrong config.pin },
        channels [] (
            asked_after json c config (status RtcStatus.pin_required ∷ []) wrong
            ++ message (accepted json) ∷ []),
        rw last_turn (handle_from_run json wrong config.pin [] (entered json wrong config.pin)),
        rw (messages-rounds json [] wrong config.pin)
            (ask_pin_run json c config wrong small left other all),
        messages-answers json c config wrong ∙ sym last_turn,
        refl,
        refl,
      )
