-- ===== src/Webrtc/Trust/Accepting/Steps.antt =====
-- What the steps of `receive_task` make sure of.
use localsend_uyava.Prelude.{
  ap, sym, ◌∙◌, Text-Eq, ◌≡◌, refl, List, ◌++◌, Option, none, some, Bool, true, false, not, Bytes,
  Text, ascii, Result, ok, err,
}
use localsend_uyava.Crypto.Token.{
  Crypto, VerifyingTokenKey, value, generate_token_nonce, verify_token_nonce,
}
use localsend_uyava.Webrtc.Chunks.{DataChannelMessage}
use localsend_uyava.Webrtc.Messages.{Json, PinConfig, RtcTokenResponse, RtcPinReceivingResponse}
use localsend_uyava.Webrtc.Io.{Effect, Task, ◌>>=◌, pure, fail}
use localsend_uyava.Webrtc.Pin.{or_fail, verify_pin}
use localsend_uyava.Webrtc.Handshake.{
  context, of_result, receive_text, receive_nonce, check_token, send_text, send_nonce,
}
use localsend_uyava.Webrtc.Handshake.Accepting.{
  token_answer, pin_message, exchange_nonce, reject, verify_remote, exchange_token, send_pin_result,
  ask_pin,
}
use localsend_uyava.Webrtc.Keeps.{
  Keeps, Post, Any, Carried, Keeps-bind, Keeps-pure, Keeps-fail, Keeps-or_fail, Keeps-of_result,
  Keeps-context, Keeps-if, Keeps-receive_text,
}
use localsend_uyava.Webrtc.Keeps.Pins.{IsQuiet, Keeps-send_text, Keeps-verify_pin}
use localsend_uyava.Webrtc.Trust.{
  IsNonce, IsIn, IsVerified, IsPinGiven, passed, Keeps-receive_nonce, Keeps-send_nonce,
  Keeps-check_token,
}

-- A fact that does not depend on the result.
Post-regardless : (P : Type 0) (r : Result (Unit {0})) → P → Post (λ u. P) r
Post-regardless P (ok u) q = q
Post-regardless P (err e) q = tt

module _ (json : Json) (alive : List Effect → Effect → Bool) (c : Crypto)
    (msgs : List DataChannelMessage) (Q : Effect → Type 0)
    (quiet : (e : Effect) → IsQuiet e → Q e) where
  abbrev W : DataChannelMessage → Type 0
  W m = IsIn m msgs

  -- The nonce of the exchange ends in one's own.
  abbrev pub IsShared : Bytes → Bytes → Type 0
  IsShared local_nonce nonce =
      (remote_nonce : Bytes) × IsNonce json c W remote_nonce × (nonce ≡ remote_nonce ++ local_nonce)

  pub Keeps-exchange_nonce :
      (local_nonce : Bytes)
      → Keeps Q W (IsShared local_nonce) (exchange_nonce json alive c local_nonce)
  unfolding exchange_nonce
  Keeps-exchange_nonce local_nonce =
      Keeps-bind Q W (IsNonce json c W) (IsShared local_nonce) (receive_nonce json c)
        (λ remote. send_nonce json alive c local_nonce >>= λ u. pure (remote ++ local_nonce))
        (Keeps-receive_nonce Q W quiet json alive c)
        λ remote valid.
          Keeps-bind Q W Any (IsShared local_nonce) (send_nonce json alive c local_nonce)
            (λ u. pure (remote ++ local_nonce))
            (Keeps-send_nonce Q W quiet json alive c local_nonce)
            λ u r.
              Keeps-pure Q W (IsShared local_nonce) (remote ++ local_nonce) (remote, valid, refl)

  Keeps-reject : (R : Unit {0} → Type 0) → Keeps Q W R (reject json alive c)
  unfolding reject
  Keeps-reject R =
      Keeps-bind Q W Any R
        (send_text json alive (json.token_response.to_string RtcTokenResponse.invalid_signature))
        (λ u. fail (ascii "Invalid token signature or nonce"))
        (Keeps-send_text Q W quiet json alive
          (json.token_response.to_string RtcTokenResponse.invalid_signature))
        λ u r. Keeps-fail Q W R (ascii "Invalid token signature or nonce")

  Keeps-verify_remote :
      (expecting : Option VerifyingTokenKey) (nonce : Bytes) (token : Text)
      → Keeps Q W
          (λ u. IsVerified c expecting nonce token)
          (verify_remote json alive c expecting nonce token)
  unfolding verify_remote
  Keeps-verify_remote none nonce token = Keeps-pure Q W Any tt tt
  Keeps-verify_remote (some key) nonce token =
      Keeps-bind Q W (λ b. verify_token_nonce c key token nonce ≡ value b)
        (λ u. verify_token_nonce c key token nonce ≡ value true)
        (check_token json c key token nonce) _
        (Keeps-check_token Q W quiet json alive c key token nonce)
        λ valid r.
          Keeps-if Q W (λ u. verify_token_nonce c key token nonce ≡ value true) (not valid) _ _
            (λ e. Keeps-reject _)
            (λ e.
              Keeps-pure Q W (λ u. verify_token_nonce c key token nonce ≡ value true) tt
                (passed c key token nonce valid r e))

  -- A token that came and passes the check.
  abbrev pub HasToken : Option VerifyingTokenKey → Bytes → Unit {0} → Type 0
  HasToken expecting nonce u =
      (token : Text) × (msg : DataChannelMessage) × IsIn msg msgs
      × (json.token_request.from_slice msg.contents ≡ some (record { token = token }))
      × IsVerified c expecting nonce token

  abbrev answered : c.SigningKey → Option PinConfig → Bytes → Task (Unit {0})
  answered signing_key pin nonce =
      context (ascii "Failed to generate token")
        (of_result (generate_token_nonce c signing_key nonce))
      >>= λ token.
          context (ascii "Failed to send token")
            (send_text json alive (json.token_response.to_string (token_answer pin token)))

  Keeps-answered :
      (signing_key : c.SigningKey) (pin : Option PinConfig) (nonce : Bytes) (P : Type 0)
      → P
      → Keeps Q W (λ u. P) (answered signing_key pin nonce)
  Keeps-answered signing_key pin nonce P p =
      Keeps-bind Q W (λ t. generate_token_nonce c signing_key nonce ≡ ok t) (λ u. P)
        (context (ascii "Failed to generate token")
          (of_result (generate_token_nonce c signing_key nonce)))
        (λ token.
          context (ascii "Failed to send token")
            (send_text json alive (json.token_response.to_string (token_answer pin token))))
        (Keeps-context Q W (λ t. generate_token_nonce c signing_key nonce ≡ ok t)
          (ascii "Failed to generate token") (of_result (generate_token_nonce c signing_key nonce))
          (Keeps-of_result Q W (generate_token_nonce c signing_key nonce)))
        λ token r io h w.
          let k =
            Keeps-context Q W Any (ascii "Failed to send token")
              (send_text json alive (json.token_response.to_string (token_answer pin token)))
              (Keeps-send_text Q W quiet json alive
                (json.token_response.to_string (token_answer pin token)))
              io h w in
          (k.0, k.1, Post-regardless P _ p)

  pub Keeps-exchange_token :
      (signing_key : c.SigningKey) (expecting : Option VerifyingTokenKey) (pin : Option PinConfig)
      (nonce : Bytes)
      → Keeps Q W
          (HasToken expecting nonce)
          (exchange_token json alive c signing_key expecting pin nonce)
  unfolding exchange_token
  Keeps-exchange_token signing_key expecting pin nonce =
      Keeps-bind Q W (Carried Q W) (HasToken expecting nonce)
        (receive_text (ascii "Failed to receive token")) _
        (Keeps-receive_text Q W (ascii "Failed to receive token"))
        λ bytes (msg, came, e).
          Keeps-bind Q W (λ q. json.token_request.from_slice bytes ≡ some q)
            (HasToken expecting nonce)
            (or_fail (ascii "serde_json") (json.token_request.from_slice bytes)) _
            (Keeps-or_fail Q W (ascii "serde_json") (json.token_request.from_slice bytes))
            λ request parsed.
              Keeps-bind Q W (λ u. IsVerified c expecting nonce request.token)
                (HasToken expecting nonce)
                (verify_remote json alive c expecting nonce request.token)
                (λ u. answered signing_key pin nonce)
                (Keeps-verify_remote expecting nonce request.token)
                λ u verified. Keeps-answered signing_key pin nonce (HasToken expecting nonce tt) (
                  request.token,
                  msg,
                  came,
                  ap json.token_request.from_slice (sym e) ∙ parsed,
                  verified,
                )

  pub Keeps-ask_pin :
      (pin : Option PinConfig) → Keeps Q W (λ u. IsPinGiven json W pin) (ask_pin json alive c pin)
  unfolding ask_pin send_pin_result
  Keeps-ask_pin none = Keeps-pure Q W Any tt tt
  Keeps-ask_pin (some config) =
      Keeps-bind Q W (λ u. IsPinGiven json W (some config)) (λ u. IsPinGiven json W (some config))
        (verify_pin json alive config (send_pin_result json alive c) false)
        (λ u. send_text json alive (json.pin_receiving.to_string RtcPinReceivingResponse.ok))
        (Keeps-verify_pin Q W quiet json alive config (send_pin_result json alive c)
          (λ r. Keeps-send_text Q W quiet json alive (json.pin_receiving.to_string (pin_message r)))
          false)
        λ u given io h w.
          let k =
            Keeps-send_text Q W quiet json alive
              (json.pin_receiving.to_string RtcPinReceivingResponse.ok) io h w in
          (k.0, k.1, Post-regardless (IsPinGiven json W (some config)) _ given)
