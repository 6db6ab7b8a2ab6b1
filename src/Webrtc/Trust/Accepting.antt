-- ===== src/Webrtc/Trust/Accepting.antt =====
-- What `receive_task` has made sure of.
pub mod Steps
use mathlib.Core.Path.{subst}
use localsend_uyava.Prelude.{
  Text-Eq, ◌≡◌, inl, inr, ◌⊎◌, List, [], ◌++◌, Option, some, Bool, true, false, Bytes, Text, All,
}
use localsend_uyava.Crypto.Token.{Crypto, VerifyingTokenKey}
use localsend_uyava.Webrtc.Chunks.{DataChannelMessage}
use localsend_uyava.Webrtc.Messages.{Json, PinConfig, RtcSendFileResponse}
use localsend_uyava.Webrtc.Io.{Effect, Io, ◌>>=◌}
use localsend_uyava.Webrtc.Handshake.Accepting.{
  exchange_nonce, exchange_token, ask_pin, after_tokens, receive_task,
}
use localsend_uyava.Webrtc.Keeps.{Last-bind, everything_allowed}
use localsend_uyava.Webrtc.Keeps.Pins.{IsQuiet}
use localsend_uyava.Webrtc.Trust.{IsNonce, IsIn, IsVerified, IsPinGiven, All-IsIn}
use localsend_uyava.Webrtc.Trust.Accepting.Steps.{
  IsShared, HasToken, Keeps-exchange_nonce, Keeps-exchange_token, Keeps-ask_pin,
}

-- The other peer is who was expected, over both nonces, and knows the PIN, if these are asked for:
-- its valid nonce and its token came with messages, and the token passes the check.
abbrev pub IsTrusted :
    Json
    → Crypto
    → List DataChannelMessage
    → Bytes
    → Option VerifyingTokenKey
    → Option PinConfig
    → Type 0
IsTrusted json c msgs local_nonce expecting pin =
    (remote_nonce : Bytes) × (token : Text) × (msg : DataChannelMessage) × IsNonce json c
      (λ m. IsIn m msgs) remote_nonce
    × IsIn msg msgs
    × (json.token_request.from_slice msg.contents ≡ some (record { token = token }))
    × IsVerified c expecting (remote_nonce ++ local_nonce) token
    × IsPinGiven json (λ m. IsIn m msgs) pin

-- A task of `accept_offer` that starts with an empty log, whatever messages arrive and whatever
-- sends fail: it reports that it is connected, shows the file list, or announces or publishes a
-- file only where its messages hold a nonce of a valid length and a token request whose token
-- passes the check with the expected key over that nonce and its own, and a message with the PIN,
-- where a key is expected and where a PIN that is not empty is set.
pub receive_task_safe :
    (json : Json) (alive : List Effect → Effect → Bool) (c : Crypto) (opened : Bool)
    (local_nonce : Bytes) (fresh : Text → Text) (signing_key : c.SigningKey)
    (expecting : Option VerifyingTokenKey) (pin : Option PinConfig)
    (selected : Option (Option (List Text))) (results : List RtcSendFileResponse) (io : Io)
    → io.log ≡ []
    → All
        (λ e. IsQuiet e ⊎ IsTrusted json c io.incoming local_nonce expecting pin)
        (receive_task json alive c opened local_nonce fresh signing_key expecting pin selected
          results io).1.log
unfolding receive_task after_tokens
receive_task_safe json alive c false local_nonce fresh signing_key expecting pin selected results io
      e =
    rw e tt
receive_task_safe json alive c true local_nonce fresh signing_key expecting pin selected results io
      e =
    Last-bind Q W (IsShared json alive c msgs Q quiet local_nonce)
      (exchange_nonce json alive c local_nonce) _
      (Keeps-exchange_nonce json alive c msgs Q quiet local_nonce)
      (λ nonce (remote, valid, shared).
        Last-bind Q W (HasToken json alive c msgs Q quiet expecting nonce)
          (exchange_token json alive c signing_key expecting pin nonce) _
          (Keeps-exchange_token json alive c msgs Q quiet signing_key expecting pin nonce)
          λ u (token, msg, came, parsed, verified).
            Last-bind Q W (λ u. IsPinGiven json W pin) (ask_pin json alive c pin) _
              (Keeps-ask_pin json alive c msgs Q quiet pin)
              λ u given io' h w.
                everything_allowed Q W
                  (λ e'. inr (
                    remote,
                    token,
                    msg,
                    valid,
                    came,
                    parsed,
                    subst (λ n. IsVerified c expecting n token) shared verified,
                    given,
                  ))
                  _)
      io (rw e tt) (All-IsIn msgs msgs (λ m h. h))
  where
    msgs : List DataChannelMessage
    msgs = io.incoming

    Q : Effect → Type 0
    Q e' = IsQuiet e' ⊎ IsTrusted json c io.incoming local_nonce expecting pin

    W : DataChannelMessage → Type 0
    W m = IsIn m io.incoming

    quiet : (e' : Effect) → IsQuiet e' → Q e'
    quiet e' h = inl h
