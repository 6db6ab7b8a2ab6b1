-- ===== src/Webrtc/Trust/Sending.antt =====
-- What `send_task` has made sure of.
pub mod Steps
use localsend_uyava.Prelude.{Text-Eq, ◌≡◌, List, ◌++◌, Option, some, Bytes, Text}
use localsend_uyava.Crypto.Token.{Crypto, VerifyingTokenKey}
use localsend_uyava.Webrtc.Chunks.{DataChannelMessage}
use localsend_uyava.Webrtc.Messages.{Json, PinConfig, RtcTokenResponse}
use localsend_uyava.Webrtc.Io.{Io, ◌>>=◌}
use localsend_uyava.Webrtc.Handshake.Sending.{token_in}
use localsend_uyava.Webrtc.Trust.{IsNonce, IsIn, IsVerified, IsPinGiven}

-- The other peer is who was expected, over both nonces, and knows the PIN, if these are asked for:
-- its valid nonce and the response with its token came with messages, and the token passes the
-- check.
abbrev pub IsTrusted :
    Json
    → Crypto
    → List DataChannelMessage
    → Bytes
    → Option VerifyingTokenKey
    → Option PinConfig
    → Type 0
IsTrusted json c msgs local_nonce expecting pin =
    (remote_nonce : Bytes) × (token : Text) × (response : RtcTokenResponse)
    × (msg : DataChannelMessage) × IsNonce json c (λ m. IsIn m msgs) remote_nonce
    × IsIn msg msgs
    × (json.token_response.from_slice msg.contents ≡ some response)
    × (token_in response ≡ some token)
    × IsVerified c expecting (local_nonce ++ remote_nonce) token
    × IsPinGiven json (λ m. IsIn m msgs) pin
