-- ===== src/Webrtc/Tests/Pins.antt =====
-- A PIN that is entered right at the third try.
use localsend_uyava.Prelude.{
  ℕ, ◌≡◌, refl, List, [], ◌∷◌, Text, text_eq, ascii, Result, ok, err, arith,
}
use localsend_uyava.Crypto.Token.{VerifyingTokenKey}
use localsend_uyava.Crypto.Toy.{toy as crypto}
use localsend_uyava.Webrtc.Messages.{PinConfig}
use localsend_uyava.Webrtc.Chunks.{DataChannelMessage}
use localsend_uyava.Webrtc.Io.{Io}
use localsend_uyava.Webrtc.Session.{messages_of}
use localsend_uyava.Webrtc.Session.Pins.{enters, asks, turns, pins_complete}
use localsend_uyava.Webrtc.Tests.Toy.{toy}

abbrev config : PinConfig
config = record { pin = ascii "12"; max_tries = 3 }

abbrev wrong : List Text
wrong = ascii "1" ∷ ascii "2" ∷ []

abbrev no_key : Text → Text → Result VerifyingTokenKey
no_key pem kind = err (ascii "no key")

-- The two sides, and what the second has sent after some turns.
abbrev enter : List DataChannelMessage → Result (Unit {0}) × Io
enter = enters toy crypto config no_key wrong

abbrev ask : List DataChannelMessage → Result (Unit {0}) × Io
ask = asks toy crypto config no_key wrong

abbrev heard : ℕ → List DataChannelMessage
heard = turns toy crypto config no_key wrong

pins_complete_example :
    (sender receiver : Io) × (enter (heard 3) ≡ (ok tt, sender))
    × (ask (messages_of sender.log) ≡ (ok tt, receiver))
    × (messages_of receiver.log ≡ heard 3)
    × (sender.incoming ≡ [])
    × (receiver.incoming ≡ [])
unfolding text_eq
pins_complete_example =
    pins_complete toy crypto config no_key wrong (omega arith) (omega arith) refl (refl, (refl, tt))
