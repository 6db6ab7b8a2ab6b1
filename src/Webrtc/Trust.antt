-- ===== src/Webrtc/Trust.antt =====
-- What each task of a transfer has made sure of before it shows or publishes anything.
pub mod Accepting
pub mod Sending
use localsend_uyava.Prelude.{
  Text-Eq, ◌≡◌, refl, inl, inr, ◌⊎◌, List, [], ◌∷◌, Option, none, some, Bool, true, false, not,
  Bytes, Text, ascii, ok, All, ap, sym, ◌∙◌,
}
use localsend_uyava.Crypto.Nonce.{validate_nonce}
use localsend_uyava.Crypto.Token.{Crypto, VerifyingTokenKey, value, verify_token_nonce}
use localsend_uyava.Webrtc.Chunks.{DataChannelMessage}
use localsend_uyava.Webrtc.Messages.{Json, PinConfig, RtcNonceMessage}
use localsend_uyava.Webrtc.Io.{Effect}
use localsend_uyava.Webrtc.Pin.{or_fail}
use localsend_uyava.Webrtc.Handshake.{
  context, of_result, receive_text, receive_nonce, check_token, send_text, send_nonce,
}
use localsend_uyava.Webrtc.Keeps.{
  Keeps, Any, Carried, Keeps-bind, Keeps-pure, Keeps-fail, Keeps-or_fail, Keeps-of_result,
  Keeps-of_outcome, Keeps-context, Keeps-if, Keeps-receive_text,
}
use localsend_uyava.Webrtc.Keeps.Pins.{IsQuiet, Keeps-send_text}

-- The message is one of these.
abbrev pub IsIn : DataChannelMessage → List DataChannelMessage → Type 0
IsIn msg [] = ⊥
IsIn msg (m ∷ ms) = (msg ≡ m) ⊎ IsIn msg ms

-- The nonce has a valid length, and a message brought it.
abbrev pub IsNonce : Json → Crypto → (DataChannelMessage → Type 0) → Bytes → Type 0
IsNonce json c W nonce =
    (validate_nonce nonce ≡ true)
    × (msg : DataChannelMessage) × W msg
    × (sent : RtcNonceMessage) × (json.nonce.from_slice msg.contents ≡ some sent)
    × (c.decode sent.nonce ≡ ok nonce)

-- The token passes the check with the key, where a key is expected.
abbrev pub IsVerified : Crypto → Option VerifyingTokenKey → Bytes → Text → Type 0
IsVerified c none nonce token = Unit
IsVerified c (some key) nonce token = verify_token_nonce c key token nonce ≡ value true

-- Where a PIN is set, it is empty or one of the messages brought it.
abbrev pub IsPinGiven : Json → (DataChannelMessage → Type 0) → Option PinConfig → Type 0
IsPinGiven json W none = Unit
IsPinGiven json W (some config) =
    (config.pin ≡ [])
    ⊎ ((msg : DataChannelMessage) × W msg
        × (json.pin.from_slice msg.contents ≡ some (record { pin = config.pin })))

-- The check of a token was not refused.
pub passed :
    (c : Crypto) (key : VerifyingTokenKey) (token : Text) (nonce : Bytes) (b : Bool)
    → verify_token_nonce c key token nonce ≡ value b
    → not b ≡ false
    → verify_token_nonce c key token nonce ≡ value true
passed c key token nonce true r e = r
passed c key token nonce false r e = cc

pub All-IsIn :
    (all ms : List DataChannelMessage)
    → ((m : DataChannelMessage) → IsIn m ms → IsIn m all)
    → All (λ m. IsIn m all) ms
All-IsIn all [] k = tt
All-IsIn all (m ∷ ms) k = (k m (inl refl), All-IsIn all ms (λ n h. k n (inr h)))

module _ (Q : Effect → Type 0) (W : DataChannelMessage → Type 0)
    (quiet : (e : Effect) → IsQuiet e → Q e) (json : Json) (alive : List Effect → Effect → Bool)
    (c : Crypto) where
  pub Keeps-receive_nonce : Keeps Q W (IsNonce json c W) (receive_nonce json c)
  unfolding receive_nonce
  Keeps-receive_nonce =
      Keeps-bind Q W (Carried Q W) (IsNonce json c W)
        (receive_text (ascii "Failed to receive nonce")) _
        (Keeps-receive_text Q W (ascii "Failed to receive nonce"))
        λ bytes (came, there, e).
          Keeps-bind Q W (λ m. json.nonce.from_slice bytes ≡ some m) (IsNonce json c W)
            (or_fail (ascii "serde_json") (json.nonce.from_slice bytes)) _
            (Keeps-or_fail Q W (ascii "serde_json") (json.nonce.from_slice bytes))
            λ msg parsed.
              Keeps-bind Q W (λ b. c.decode msg.nonce ≡ ok b) (IsNonce json c W)
                (context (ascii "Failed to decode remote nonce") (of_result (c.decode msg.nonce))) _
                (Keeps-context Q W (λ b. c.decode msg.nonce ≡ ok b)
                  (ascii "Failed to decode remote nonce") (of_result (c.decode msg.nonce))
                  (Keeps-of_result Q W (c.decode msg.nonce)))
                λ remote decoded.
                  Keeps-if Q W (IsNonce json c W) (not (validate_nonce remote)) _ _
                    (λ no. Keeps-fail Q W (IsNonce json c W) (ascii "Invalid remote nonce"))
                    (λ no. Keeps-pure Q W (IsNonce json c W) remote (
                      not_false (validate_nonce remote) no,
                      came,
                      there,
                      msg,
                      ap json.nonce.from_slice (sym e) ∙ parsed,
                      decoded,
                    ))
    where
      not_false : (b : Bool) → not b ≡ false → b ≡ true
      not_false true e = refl
      not_false false e = cc

  pub Keeps-send_nonce : (nonce : Bytes) → Keeps Q W Any (send_nonce json alive c nonce)
  unfolding send_nonce
  Keeps-send_nonce nonce =
      Keeps-context Q W Any (ascii "Failed to send nonce")
        (send_text json alive (json.nonce.to_string (record { nonce = c.encode nonce })))
        (Keeps-send_text Q W quiet json alive
          (json.nonce.to_string (record { nonce = c.encode nonce })))

  pub Keeps-check_token :
      (key : VerifyingTokenKey) (token : Text) (nonce : Bytes)
      → Keeps Q W
          (λ b. verify_token_nonce c key token nonce ≡ value b)
          (check_token json c key token nonce)
  unfolding check_token
  Keeps-check_token key token nonce = Keeps-of_outcome Q W (verify_token_nonce c key token nonce)
