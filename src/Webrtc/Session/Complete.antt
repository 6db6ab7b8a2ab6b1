-- ===== src/Webrtc/Session/Complete.antt =====
-- `send_task` and `receive_task` at the two ends of a data channel.
use localsend_uyava.Prelude.{
  Text-Eq, ◌≡◌, List, [], ◌∷◌, ◌++◌, Option, none, some, Bool, true, Bytes, Text, Result, ok, ℕ,
  zero, suc,
}
use localsend_uyava.Model.{FileDto}
use localsend_uyava.Crypto.Nonce.{validate_nonce}
use localsend_uyava.Crypto.Token.{Crypto, VerifyingTokenKey, generate_token_nonce}
use localsend_uyava.Crypto.Token.RoundTrip.{CryptoLaws}
use localsend_uyava.Webrtc.Chunks.{DataChannelMessage}
use localsend_uyava.Webrtc.Messages.{Json, RtcSendFileResponse}
use localsend_uyava.Webrtc.Io.{Effect, Io}
use localsend_uyava.Webrtc.Transfer.{RtcFile}
use localsend_uyava.Webrtc.Transfer.Sender.{works}
use localsend_uyava.Webrtc.Handshake.Sending.{send_task}
use localsend_uyava.Webrtc.Handshake.Accepting.{collect, receive_task}
use localsend_uyava.Webrtc.Session.{channels, messages_of}
use localsend_uyava.Webrtc.Session.Turns.{EmptyIsNone}
use localsend_uyava.Webrtc.Session.Accepting.{shown}
use localsend_uyava.Webrtc.Session.Accepting as OfReceiver
use localsend_uyava.Webrtc.Session.Sending as OfSender
use localsend_uyava.Webrtc.Session.Expected.{Expects}

module _ (json : Json) (c : Crypto) (parse_public_key : Text → Text → Result VerifyingTokenKey)
    (sender_nonce receiver_nonce : Bytes) (sender_key receiver_key : c.SigningKey)
    (sender_expects receiver_expects : Option VerifyingTokenKey) (files : List FileDto)
    (f : RtcFile) (fs : List RtcFile) (pair_answer : Option Bool) (fresh : Text → Text)
    (selected : List Text) (results : List RtcSendFileResponse) where
  abbrev tokens : List (Text × Text)
  tokens = collect fresh selected []

  abbrev nonce : Bytes
  nonce = sender_nonce ++ receiver_nonce

  -- The two tasks, on channels that work and bring these messages.
  abbrev pub sends : List DataChannelMessage → Result (Unit {0}) × Io
  sends incoming =
      send_task json works c parse_public_key true sender_nonce sender_key sender_expects none files
        (f ∷ fs) pair_answer (channels incoming [])

  abbrev pub receives : List DataChannelMessage → Result (Unit {0}) × Io
  receives incoming =
      receive_task json works c true receiver_nonce fresh receiver_key receiver_expects none
        (some (some selected)) results (channels incoming [])

  -- What the receiving peer has sent after a number of turns. In a turn each task runs on what the
  -- other has sent in the turns before, until its messages run out.
  abbrev pub turn : List DataChannelMessage → List DataChannelMessage
  turn heard = messages_of (receives (messages_of (sends heard).1.log)).1.log

  abbrev pub turns : ℕ → List DataChannelMessage
  turns zero = []
  turns (suc n) = turn (turns n)

  module _ (sender_token receiver_token : Text) (empty : EmptyIsNone json) (laws : CryptoLaws c)
      (sender_valid : validate_nonce sender_nonce ≡ true)
      (receiver_valid : validate_nonce receiver_nonce ≡ true)
      (sender_knows : Expects c sender_expects receiver_key)
      (receiver_knows : Expects c receiver_expects sender_key)
      (sender_made : generate_token_nonce c sender_key nonce ≡ ok sender_token)
      (receiver_made : generate_token_nonce c receiver_key nonce ≡ ok receiver_token) where
    abbrev seen : List Effect
    seen = shown json c files tokens (OfReceiver.greeting json c receiver_nonce receiver_token)
