-- ===== src/Webrtc/Handshake/Accepting.antt =====
-- core/src/webrtc/webrtc.rs: `receive_task` of `accept_offer`.
use localsend_uyava.Prelude.{
  Text-Eq, List, [], ◌∷◌, ◌++◌, map, Option, none, some, Bool, true, false, not, Bytes, Text, ascii,
  if◌then◌else◌,
}
use localsend_uyava.Prelude.Dict.{insert}
use localsend_uyava.Model.{FileDto}
use localsend_uyava.Crypto.Token.{Crypto, VerifyingTokenKey, generate_token_nonce}
use localsend_uyava.Webrtc.Messages.{
  Json, PinConfig, RtcStatus, RtcTokenResponse, RtcPinReceivingResponse, RtcPinSendingResponse,
  RtcFileListResponse, RtcSendFileResponse,
}
use localsend_uyava.Webrtc.Io.{Effect, status, file_list, Task, ◌>>=◌, ◌>>◌, pure, fail, perform}
use localsend_uyava.Webrtc.Pin.{
  VerifyPinResult, pin_required, too_many_attempts, ChallengePinResult, or_fail, receive_chunks,
  verify_pin, handle_pin,
}
use localsend_uyava.Webrtc.Transfer.{tell, receive_files}
use localsend_uyava.Webrtc.Handshake.{
  context, of_result, receive_text, receive_nonce, check_token, send_text, send_whole, send_nonce,
}

abbrev pub pin_message : VerifyPinResult → RtcPinReceivingResponse
pin_message pin_required = RtcPinReceivingResponse.pin_required
pin_message too_many_attempts = RtcPinReceivingResponse.too_many_attempts

abbrev pub pin_answer : Option RtcPinSendingResponse → ChallengePinResult (List FileDto)
pin_answer none = ChallengePinResult.parse_error (ascii "Failed to parse pin response")
pin_answer (some (RtcPinSendingResponse.ok files)) = ChallengePinResult.ok files
pin_answer (some RtcPinSendingResponse.pin_required) = ChallengePinResult.pin_required
pin_answer (some RtcPinSendingResponse.too_many_attempts) = ChallengePinResult.too_many_attempts

-- `collect::<HashMap<_, _>>()`: the last token of a file counts.
unfoldable pub collect : (Text → Text) → List Text → List (Text × Text) → List (Text × Text)
unfolding insert
collect fresh [] map = map
collect fresh (id ∷ ids) map = collect fresh ids (insert id (fresh id) map)

-- The answer to a good token.
abbrev pub token_answer : Option PinConfig → Text → RtcTokenResponse
token_answer none token = RtcTokenResponse.ok token
token_answer (some pin) token = RtcTokenResponse.pin_required token

module _ (json : Json) (alive : List Effect → Effect → Bool) (c : Crypto) where
  unfoldable pub exchange_nonce : Bytes → Task Bytes
  unfolding send_nonce receive_nonce
  exchange_nonce local_nonce = do
    remote_nonce ← receive_nonce json c
    send_nonce json alive c local_nonce
    pure (remote_nonce ++ local_nonce)

  unfoldable pub reject : Task (Unit {0})
  unfolding send_text
  reject = do
    send_text json alive (json.token_response.to_string RtcTokenResponse.invalid_signature)
    fail (ascii "Invalid token signature or nonce")

  unfoldable pub verify_remote : Option VerifyingTokenKey → Bytes → Text → Task (Unit {0})
  unfolding check_token reject
  verify_remote none nonce token = pure tt
  verify_remote (some key) nonce token = do
    valid ← check_token json c key token nonce
    if not valid then reject else pure tt

  unfoldable pub exchange_token :
      c.SigningKey → Option VerifyingTokenKey → Option PinConfig → Bytes → Task (Unit {0})
  unfolding of_result send_text receive_text or_fail verify_remote
  exchange_token signing_key expecting pin nonce = do
    bytes ← receive_text (ascii "Failed to receive token")
    request ← or_fail (ascii "serde_json") (json.token_request.from_slice bytes)
    verify_remote expecting nonce request.token
    token ←
        context (ascii "Failed to generate token")
          (of_result (generate_token_nonce c signing_key nonce))
    context (ascii "Failed to send token")
        (send_text json alive (json.token_response.to_string (token_answer pin token)))

  unfoldable pub send_pin_result : VerifyPinResult → Task (Unit {0})
  unfolding send_text
  send_pin_result result = send_text json alive (json.pin_receiving.to_string (pin_message result))

  unfoldable pub ask_pin : Option PinConfig → Task (Unit {0})
  unfolding send_text send_pin_result
  ask_pin none = pure tt
  ask_pin (some pin) = do
    verify_pin json alive pin send_pin_result false
    send_text json alive (json.pin_receiving.to_string RtcPinReceivingResponse.ok)

  unfoldable pub enter_pin : RtcPinSendingResponse → Task (List FileDto)
  enter_pin (RtcPinSendingResponse.ok files) = pure files
  enter_pin RtcPinSendingResponse.pin_required =
      handle_pin json alive true (λ bytes. pin_answer (json.pin_sending.from_slice bytes))
  enter_pin RtcPinSendingResponse.too_many_attempts = do
    tell json alive (status (RtcStatus.error (ascii "Unexpected TooManyAttempts response")))
    fail (ascii "Unexpected TooManyAttempts response")

  unfoldable pub receive_pin_response : Task RtcPinSendingResponse
  unfolding receive_chunks or_fail
  receive_pin_response = do
    bytes ← receive_chunks
    or_fail (ascii "Failed to deserialize file list response") (json.pin_sending.from_slice bytes)

  -- The loop over what `receive_rx` still gives.
  unfoldable pub receive_all :
      List FileDto → List (Text × Text) → List RtcSendFileResponse → Task (Unit {0})
  receive_all files file_tokens results io =
      receive_files json alive files file_tokens none results io.incoming
        (record io { incoming = [] })

  -- The user's selection: `none` where the channel is dropped, `some none` where the user
  -- declines. Each selected file gets a fresh identifier as its token.
  unfoldable pub after_selection :
      (Text → Text)
      → List RtcSendFileResponse
      → List FileDto
      → Option (Option (List Text))
      → Task (Unit {0})
  unfolding send_whole receive_all collect
  after_selection fresh results files none = pure tt
  after_selection fresh results files (some none) =
      send_whole json alive (json.file_list.to_string RtcFileListResponse.declined)
  after_selection fresh results files (some (some selected)) = do
    let file_tokens : List (Text × Text) = collect fresh selected []
    send_whole json alive (json.file_list.to_string (RtcFileListResponse.ok file_tokens))
    receive_all files file_tokens results

  unfoldable pub after_tokens :
      (Text → Text)
      → Option PinConfig
      → Option (Option (List Text))
      → List RtcSendFileResponse
      → Task (Unit {0})
  unfolding ask_pin receive_pin_response enter_pin after_selection
  after_tokens fresh pin selected results = do
    ask_pin pin
    response ← receive_pin_response
    files ← enter_pin response
    perform alive (status RtcStatus.connected)
    context (ascii "Failed to send file list") (perform alive (file_list files))
    after_selection fresh results files selected

  unfoldable pub receive_task :
      Bool
      → Bytes
      → (Text → Text)
      → c.SigningKey
      → Option VerifyingTokenKey
      → Option PinConfig
      → Option (Option (List Text))
      → List RtcSendFileResponse
      → Task (Unit {0})
  unfolding exchange_nonce exchange_token after_tokens
  receive_task opened local_nonce fresh signing_key expecting pin selected results =
      if not opened then fail (ascii "Data channel not found") else (do
        nonce ← exchange_nonce local_nonce
        exchange_token signing_key expecting pin nonce
        after_tokens fresh pin selected results)
