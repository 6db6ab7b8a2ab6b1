-- ===== src/Webrtc/Trust/Sending/Steps.antt =====
-- What the steps of `send_task` make sure of.
use localsend_uyava.Prelude.{
  Text-Eq, ◌≡◌, refl, sym, ap, ◌∙◌, List, ◌++◌, Option, none, some, Bool, true, false, not, Bytes,
  Text, ascii, Result, ok,
}
use localsend_uyava.Crypto.Token.{
  Crypto, VerifyingTokenKey, value, generate_token_nonce, verify_token_nonce,
}
use localsend_uyava.Webrtc.Chunks.{DataChannelMessage}
use localsend_uyava.Webrtc.Messages.{Json, PinConfig, RtcTokenResponse}
use localsend_uyava.Webrtc.Io.{Effect, ◌>>=◌, pure}
use localsend_uyava.Webrtc.Pin.{or_fail}
use localsend_uyava.Webrtc.Handshake.{
  context, of_result, receive_text, receive_nonce, check_token, send_text, send_nonce,
}
use localsend_uyava.Webrtc.Handshake.Sending.{
  token_in, needs_pin, pin_message, exchange_nonce, verify_remote, accept_response, exchange_token,
  enter_pin, send_pin_result, ask_pin,
}
use localsend_uyava.Webrtc.Keeps.{
  Keeps, Any, Carried, Keeps-bind, Keeps-pure, Keeps-fail, Keeps-or_fail, Keeps-of_result,
  Keeps-context, Keeps-if, Keeps-option, Keeps-receive_text,
}
use localsend_uyava.Webrtc.Keeps.Pins.{IsQuiet, Keeps-send_text, Keeps-send_whole, Keeps-verify_pin}
use localsend_uyava.Webrtc.Keeps.Challenge.{Keeps-handle_pin}
use localsend_uyava.Webrtc.Trust.{
  IsNonce, IsIn, IsVerified, IsPinGiven, passed, Keeps-receive_nonce, Keeps-send_nonce,
  Keeps-check_token,
}

module _ (json : Json) (alive : List Effect → Effect → Bool) (c : Crypto)
    (parse_public_key : Text → Text → Result VerifyingTokenKey) (msgs : List DataChannelMessage)
    (Q : Effect → Type 0) (quiet : (e : Effect) → IsQuiet e → Q e) where
  abbrev W : DataChannelMessage → Type 0
  W m = IsIn m msgs

  -- The nonce of the exchange begins with one's own.
  abbrev pub IsShared : Bytes → Bytes → Type 0
  IsShared local_nonce nonce =
      (remote_nonce : Bytes) × IsNonce json c W remote_nonce × (nonce ≡ local_nonce ++ remote_nonce)

  pub Keeps-exchange_nonce :
      (local_nonce : Bytes)
      → Keeps Q W (IsShared local_nonce) (exchange_nonce json alive c parse_public_key local_nonce)
  unfolding exchange_nonce
  Keeps-exchange_nonce local_nonce =
      Keeps-bind Q W Any (IsShared local_nonce) (send_nonce json alive c local_nonce)
        (λ u. receive_nonce json c >>= λ remote. pure (local_nonce ++ remote))
        (Keeps-send_nonce Q W quiet json alive c local_nonce)
        λ u r.
          Keeps-bind Q W (IsNonce json c W) (IsShared local_nonce) (receive_nonce json c)
            (λ remote. pure (local_nonce ++ remote)) (Keeps-receive_nonce Q W quiet json alive c)
            λ remote valid.
              Keeps-pure Q W (IsShared local_nonce) (local_nonce ++ remote) (remote, valid, refl)

  Keeps-verify_remote :
      (expecting : Option VerifyingTokenKey) (nonce : Bytes) (token : Text)
      → Keeps Q W
          (λ u. IsVerified c expecting nonce token)
          (verify_remote json alive c parse_public_key expecting nonce token)
  unfolding verify_remote
  Keeps-verify_remote none nonce token = Keeps-pure Q W Any tt tt
  Keeps-verify_remote (some key) nonce token =
      Keeps-bind Q W (λ b. verify_token_nonce c key token nonce ≡ value b)
        (λ u. verify_token_nonce c key token nonce ≡ value true)
        (check_token json c key token nonce) _
        (Keeps-check_token Q W quiet json alive c key token nonce)
        λ valid r.
          Keeps-if Q W (λ u. verify_token_nonce c key token nonce ≡ value true) (not valid) _ _
            (λ e.
              Keeps-fail Q W {A = Unit {0}} (λ u. verify_token_nonce c key token nonce ≡ value true)
                (ascii "Invalid token signature or nonce"))
            (λ e.
              Keeps-pure Q W (λ u. verify_token_nonce c key token nonce ≡ value true) tt
                (passed c key token nonce valid r e))

  -- A token that came with a response and passes the check.
  abbrev pub HasToken : Option VerifyingTokenKey → Bytes → Text × Bool → Type 0
  HasToken expecting nonce (token, challenged) =
      (response : RtcTokenResponse) × (msg : DataChannelMessage) × IsIn msg msgs
      × (json.token_response.from_slice msg.contents ≡ some response)
      × (token_in response ≡ some token)
      × IsVerified c expecting nonce token

  Keeps-accept_response :
      (expecting : Option VerifyingTokenKey) (nonce : Bytes) (response : RtcTokenResponse)
      (msg : DataChannelMessage)
      → IsIn msg msgs
      → json.token_response.from_slice msg.contents ≡ some response
      → Keeps Q W
          (HasToken expecting nonce)
          (accept_response json alive c parse_public_key expecting nonce response)
  unfolding accept_response
  Keeps-accept_response expecting nonce response msg came parsed =
      Keeps-option Q W (HasToken expecting nonce) (token_in response) _ _
        (Keeps-fail Q W (HasToken expecting nonce)
          (ascii "Invalid token signature from receiving peer"))
        λ token held.
          Keeps-bind Q W (λ u. IsVerified c expecting nonce token) (HasToken expecting nonce)
            (verify_remote json alive c parse_public_key expecting nonce token)
            (λ u. pure (token, needs_pin response)) (Keeps-verify_remote expecting nonce token)
            λ u verified.
              Keeps-pure Q W (HasToken expecting nonce) (token, needs_pin response)
                (response, msg, came, parsed, held, verified)

  pub Keeps-exchange_token :
      (signing_key : c.SigningKey) (expecting : Option VerifyingTokenKey) (nonce : Bytes)
      → Keeps Q W
          (HasToken expecting nonce)
          (exchange_token json alive c parse_public_key signing_key expecting nonce)
  unfolding exchange_token
  Keeps-exchange_token signing_key expecting nonce =
      let R : Text × Bool → Type 0 = HasToken expecting nonce in
      Keeps-bind Q W (λ t. generate_token_nonce c signing_key nonce ≡ ok t) R
        (context (ascii "Failed to generate token")
          (of_result (generate_token_nonce c signing_key nonce)))
        _
        (Keeps-context Q W (λ t. generate_token_nonce c signing_key nonce ≡ ok t)
          (ascii "Failed to generate token") (of_result (generate_token_nonce c signing_key nonce))
          (Keeps-of_result Q W (generate_token_nonce c signing_key nonce)))
        λ token r.
          Keeps-bind Q W Any R
            (context (ascii "Failed to send token")
              (send_text json alive (json.token_request.to_string (record { token = token }))))
            _
            (Keeps-context Q W Any (ascii "Failed to send token")
              (send_text json alive (json.token_request.to_string (record { token = token })))
              (Keeps-send_text Q W quiet json alive
                (json.token_request.to_string (record { token = token }))))
            λ u r.
              Keeps-bind Q W (Carried Q W) R
                (receive_text (ascii "Failed to receive token response")) _
                (Keeps-receive_text Q W (ascii "Failed to receive token response"))
                λ bytes (msg, came, e).
                  Keeps-bind Q W (λ q. json.token_response.from_slice bytes ≡ some q) R
                    (or_fail (ascii "serde_json") (json.token_response.from_slice bytes)) _
                    (Keeps-or_fail Q W (ascii "serde_json") (json.token_response.from_slice bytes))
                    λ response parsed.
                      Keeps-accept_response expecting nonce response msg came
                        (ap json.token_response.from_slice (sym e) ∙ parsed)

  pub Keeps-enter_pin : (b : Bool) → Keeps Q W Any (enter_pin json alive c parse_public_key b)
  unfolding enter_pin
  Keeps-enter_pin false = Keeps-pure Q W Any tt tt
  Keeps-enter_pin true = Keeps-handle_pin Q W quiet json alive false _

  pub Keeps-ask_pin :
      (pin : Option PinConfig)
      → Keeps Q W (λ u. IsPinGiven json W pin) (ask_pin json alive c parse_public_key pin)
  unfolding ask_pin send_pin_result
  Keeps-ask_pin none = Keeps-pure Q W Any tt tt
  Keeps-ask_pin (some config) =
      Keeps-verify_pin Q W quiet json alive config (send_pin_result json alive c parse_public_key)
        (λ r. Keeps-send_whole Q W quiet json alive (json.pin_sending.to_string (pin_message r)))
        true
