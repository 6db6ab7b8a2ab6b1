-- ===== src/Webrtc/Handshake/Sending.antt =====
-- core/src/webrtc/webrtc.rs: `send_task` of `send_offer`, from the open data channel to the end.
use localsend_uyava.Prelude.{
  Text-Eq, List, ◌++◌, map, Option, none, some, Bool, true, false, not, Bytes, Text, ascii,
  if◌then◌else◌, Result,
}
use localsend_uyava.Model.{FileDto}
use localsend_uyava.Crypto.Token.{
  Crypto, VerifyingTokenKey, generate_token_nonce, extract_signature_identifier,
}
use localsend_uyava.Webrtc.Messages.{
  Json, PinConfig, RtcStatus, RtcTokenResponse, RtcPinReceivingResponse, RtcPinSendingResponse,
  RtcFileListResponse, RtcPairResponse,
}
use localsend_uyava.Webrtc.Io.{
  Effect, status, selection, pair_request, Task, ◌>>=◌, ◌>>◌, pure, fail, perform,
}
use localsend_uyava.Webrtc.Pin.{
  VerifyPinResult, pin_required, too_many_attempts, ChallengePinResult, or_fail, receive_chunks,
  verify_pin, handle_pin,
}
use localsend_uyava.Webrtc.Transfer.{RtcFile, tell, send_files}
use localsend_uyava.Webrtc.Handshake.{
  context, of_result, receive_text, receive_nonce, check_token, send_text, send_whole, send_nonce,
  or_status,
}

-- The file tokens that the other peer gives, and what the selection of files is.
abbrev pub FileMap : Type 0
FileMap = List (Text × Text)

abbrev pub keys : FileMap → List Text
keys = map λ (id, token). id

-- What a response to the token holds.
abbrev pub token_in : RtcTokenResponse → Option Text
token_in (RtcTokenResponse.ok token) = some token
token_in (RtcTokenResponse.pin_required token) = some token
token_in RtcTokenResponse.invalid_signature = none

abbrev pub needs_pin : RtcTokenResponse → Bool
needs_pin (RtcTokenResponse.pin_required token) = true
needs_pin _ = false

-- The message that `verify_pin` sends for a result.
abbrev pub pin_message : VerifyPinResult → RtcPinSendingResponse
pin_message pin_required = RtcPinSendingResponse.pin_required
pin_message too_many_attempts = RtcPinSendingResponse.too_many_attempts

abbrev pub pin_answer : Option RtcPinReceivingResponse → ChallengePinResult (Unit {0})
pin_answer none = ChallengePinResult.parse_error (ascii "Failed to parse pin response")
pin_answer (some RtcPinReceivingResponse.ok) = ChallengePinResult.ok tt
pin_answer (some RtcPinReceivingResponse.pin_required) = ChallengePinResult.pin_required
pin_answer (some RtcPinReceivingResponse.too_many_attempts) = ChallengePinResult.too_many_attempts

-- Ed25519 keys, and keys that the crate rsa reads, are parsed outside: `parse_public_key`.
module _ (json : Json) (alive : List Effect → Effect → Bool) (c : Crypto)
    (parse_public_key : Text → Text → Result VerifyingTokenKey) where
  unfoldable pub exchange_nonce : Bytes → Task Bytes
  unfolding send_nonce receive_nonce
  exchange_nonce local_nonce = do
    send_nonce json alive c local_nonce
    remote_nonce ← receive_nonce json c
    pure (local_nonce ++ remote_nonce)

  -- A token is asked of the other peer's key only where a key is expected.
  unfoldable pub verify_remote : Option VerifyingTokenKey → Bytes → Text → Task (Unit {0})
  unfolding check_token
  verify_remote none nonce token = pure tt
  verify_remote (some key) nonce token = do
    valid ← check_token json c key token nonce
    if not valid then fail (ascii "Invalid token signature or nonce") else pure tt

  unfoldable pub accept_response :
      Option VerifyingTokenKey → Bytes → RtcTokenResponse → Task (Text × Bool)
  unfolding verify_remote
  accept_response expecting nonce response = elim (token_in response) [
    | none ↦ fail (ascii "Invalid token signature from receiving peer")
    | some token ↦ do verify_remote expecting nonce token; pure (token, needs_pin response)
  ]

  -- The remote token, and whether the other peer asks for a PIN.
  unfoldable pub exchange_token :
      c.SigningKey → Option VerifyingTokenKey → Bytes → Task (Text × Bool)
  unfolding of_result send_text receive_text or_fail accept_response
  exchange_token signing_key expecting nonce = do
    token ←
        context (ascii "Failed to generate token")
          (of_result (generate_token_nonce c signing_key nonce))
    context (ascii "Failed to send token")
        (send_text json alive (json.token_request.to_string (record { token = token })))
    bytes ← receive_text (ascii "Failed to receive token response")
    response ← or_fail (ascii "serde_json") (json.token_response.from_slice bytes)
    accept_response expecting nonce response

  unfoldable pub enter_pin : Bool → Task (Unit {0})
  enter_pin false = pure tt
  enter_pin true =
      handle_pin json alive false (λ bytes. pin_answer (json.pin_receiving.from_slice bytes))

  unfoldable pub send_pin_result : VerifyPinResult → Task (Unit {0})
  unfolding send_whole
  send_pin_result result = send_whole json alive (json.pin_sending.to_string (pin_message result))

  unfoldable pub ask_pin : Option PinConfig → Task (Unit {0})
  unfolding send_pin_result
  ask_pin none = pure tt
  ask_pin (some pin) = verify_pin json alive pin send_pin_result true

  unfoldable pub send_file_list : List FileDto → Task (Unit {0})
  unfolding or_status send_whole
  send_file_list files =
      or_status json alive (ascii "Failed to send file list message")
        (send_whole json alive (json.pin_sending.to_string (RtcPinSendingResponse.ok files)))

  unfoldable pub receive_file_list : Task RtcFileListResponse
  unfolding receive_chunks or_fail
  receive_file_list = do
    bytes ← receive_chunks
    or_fail (ascii "Failed to deserialize file list response") (json.file_list.from_slice bytes)

  -- The transfer ends here: the caller is told why, and the task returns or fails.
  unfoldable pub declined : Task (Option FileMap)
  declined = do tell json alive (status RtcStatus.declined); pure none

  unfoldable pub refused : Text → Task (Option FileMap)
  refused e = do tell json alive (status (RtcStatus.error e)); fail e

  -- The response that follows on a pairing.
  unfoldable pub after_pair : RtcFileListResponse → Task (Option FileMap)
  unfolding declined refused
  after_pair (RtcFileListResponse.ok files) = pure (some files)
  after_pair RtcFileListResponse.declined = declined
  after_pair RtcFileListResponse.invalid_signature =
      refused (ascii "Invalid signature (not expected)")
  after_pair (RtcFileListResponse.pair public_key) = refused (ascii "Unexpected pair response")

  unfoldable pub reject_pair : Task (Option FileMap)
  unfolding send_text
  reject_pair = do
    send_text json alive (json.pair.to_string RtcPairResponse.invalid_signature)
    fail (ascii "Invalid token signature or nonce")

  -- `pair_answer` is the user's, `none` where the request is dropped.
  unfoldable pub pair : Option Bool → Text → Bytes → Text → Task (Option FileMap)
  unfolding or_fail of_result check_token send_text receive_file_list after_pair reject_pair
  pair pair_answer remote_token nonce public_key = do
    identifier ←
        or_fail (ascii "Failed to extract signature identifier")
          (extract_signature_identifier c remote_token)
    key ← of_result (parse_public_key public_key identifier)
    valid ← check_token json c key remote_token nonce
    if not valid then reject_pair else (do
      context (ascii "Failed to send pair response") (perform alive pair_request)
      paired ← or_fail (ascii "recv") pair_answer
      send_text json alive (
          json.pair.to_string
            (if paired then RtcPairResponse.ok public_key else RtcPairResponse.pair_declined))
      response ← receive_file_list
      after_pair response)

  unfoldable pub choose : Option Bool → Text → Bytes → RtcFileListResponse → Task (Option FileMap)
  unfolding declined refused pair
  choose pair_answer remote_token nonce (RtcFileListResponse.ok files) = pure (some files)
  choose pair_answer remote_token nonce (RtcFileListResponse.pair public_key) =
      pair pair_answer remote_token nonce public_key
  choose pair_answer remote_token nonce RtcFileListResponse.declined = declined
  choose pair_answer remote_token nonce RtcFileListResponse.invalid_signature =
      refused (ascii "Invalid signature (not expected)")

  -- The selection is published, and the files are sent as the caller gives them.
  unfoldable pub send_selected : List RtcFile → Option FileMap → Task (Unit {0})
  send_selected sending none = pure tt
  send_selected sending (some file_map) = do
    context (ascii "Could not publish selection") (perform alive (selection (keys file_map)))
    send_files json alive file_map sending

  unfoldable pub after_tokens :
      Option PinConfig
      → List FileDto
      → List RtcFile
      → Option Bool
      → Bytes
      → Text × Bool
      → Task (Unit {0})
  unfolding enter_pin ask_pin send_file_list receive_file_list choose send_selected
  after_tokens pin files sending pair_answer nonce (remote_token, challenged) = do
    enter_pin challenged
    ask_pin pin
    perform alive (status RtcStatus.connected)
    send_file_list files
    response ← receive_file_list
    file_map ← choose pair_answer remote_token nonce response
    send_selected sending file_map

  -- `opened` says whether the channel is ever opened, and `local_nonce` is what `generate_nonce`
  -- gives.
  unfoldable pub send_task :
      Bool
      → Bytes
      → c.SigningKey
      → Option VerifyingTokenKey
      → Option PinConfig
      → List FileDto
      → List RtcFile
      → Option Bool
      → Task (Unit {0})
  unfolding exchange_nonce exchange_token after_tokens
  send_task opened local_nonce signing_key expecting pin files sending pair_answer =
      if not opened then fail (ascii "Data channel not opened") else (do
        nonce ← exchange_nonce local_nonce
        tokens ← exchange_token signing_key expecting nonce
        after_tokens pin files sending pair_answer nonce tokens)
