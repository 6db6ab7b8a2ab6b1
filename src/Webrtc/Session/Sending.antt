-- ===== src/Webrtc/Session/Sending.antt =====
-- `send_task` with a receiving peer that keeps to the protocol.
use localsend_uyava.Prelude.{
  Text-Eq, ◌≡◌, refl, List, [], ◌∷◌, ◌++◌, map, Option, none, some, Bool, true, false, Bytes, Text,
  Result, ok,
}
use localsend_uyava.Model.{FileDto}
use localsend_uyava.Crypto.Nonce.{validate_nonce}
use localsend_uyava.Crypto.Token.{Crypto, VerifyingTokenKey, generate_token_nonce}
use localsend_uyava.Webrtc.Chunks.{DataChannelMessage}
use localsend_uyava.Webrtc.Messages.{
  Json, RtcStatus, RtcTokenResponse, RtcPinSendingResponse, RtcFileListResponse,
}
use localsend_uyava.Webrtc.Io.{Effect, message, status, selection, Io, perform, recv, take_first}
use localsend_uyava.Webrtc.Pin.{or_fail, text_message}
use localsend_uyava.Webrtc.Transfer.{RtcFile, send_files}
use localsend_uyava.Webrtc.Transfer.Sender.{works}
use localsend_uyava.Webrtc.Handshake.{
  of_result, of_outcome, receive_text, receive_nonce, check_token, send_text, send_nonce, or_status,
}
use localsend_uyava.Webrtc.Handshake.Sending.{
  keys, exchange_nonce, verify_remote, accept_response, exchange_token, enter_pin, ask_pin,
  send_file_list, receive_file_list, choose, send_selected, after_tokens, send_task,
}
use localsend_uyava.Webrtc.Trust.{IsVerified}
use localsend_uyava.Webrtc.Session.{
  said, whole, channels, send_whole_lem, receive_string_from_chunks-whole,
}

module _ (json : Json) (c : Crypto)
    (parse_public_key : Text → Text → Result VerifyingTokenKey) where
  pub exchange_nonce_run :
      (local remote : Bytes) (rest : List DataChannelMessage) (log : List Effect)
      → c.decode (c.encode remote) ≡ ok remote
      → validate_nonce remote ≡ true
      → exchange_nonce json works c parse_public_key local
          (channels (said (json.nonce.to_string (record { nonce = c.encode remote })) ∷ rest) log)
        ≡ (
          ok (local ++ remote),
          channels rest
              (log ++ text_message (json.nonce.to_string (record { nonce = c.encode local })) ∷ []),
        )
  unfolding exchange_nonce receive_nonce receive_text recv take_first or_fail of_result send_nonce
      send_text perform
  exchange_nonce_run local remote rest log coded valid =
      rw (json.nonce.from_slice-to_string (record { nonce = c.encode remote }), coded, valid) refl

  verify_remote_run :
      (expecting : Option VerifyingTokenKey) (nonce : Bytes) (token : Text) (io : Io)
      → IsVerified c expecting nonce token
      → verify_remote json works c parse_public_key expecting nonce token io ≡ (ok tt, io)
  unfolding verify_remote check_token of_outcome
  verify_remote_run none nonce token io verified = refl
  verify_remote_run (some key) nonce token io verified = rw verified refl

  pub exchange_token_run :
      (key : c.SigningKey) (expecting : Option VerifyingTokenKey) (nonce : Bytes)
      (remote_token token : Text) (rest : List DataChannelMessage) (log : List Effect)
      → IsVerified c expecting nonce remote_token
      → generate_token_nonce c key nonce ≡ ok token
      → exchange_token json works c parse_public_key key expecting nonce (
          channels
            (said (json.token_response.to_string (RtcTokenResponse.ok remote_token)) ∷ rest)
            log)
        ≡ (
          ok (remote_token, false),
          channels rest
              (log ++ text_message (json.token_request.to_string (record { token = token })) ∷ []),
        )
  unfolding exchange_token receive_text recv take_first or_fail of_result send_text perform
      accept_response
  exchange_token_run key expecting nonce remote_token token rest log verified made =
      let sent =
        log ++ text_message (json.token_request.to_string (record { token = token })) ∷ [] in
      rw
        (
          made,
          json.token_response.from_slice-to_string (RtcTokenResponse.ok remote_token),
          verify_remote_run expecting nonce remote_token (channels rest sent) verified,
        )
        refl

  receive_file_list_run :
      (tokens : List (Text × Text)) (rest : List DataChannelMessage) (log : List Effect)
      → receive_file_list json works c parse_public_key
          (channels (whole (json.file_list.to_string (RtcFileListResponse.ok tokens)) ++ rest) log)
        ≡ (ok (RtcFileListResponse.ok tokens), channels rest log)
  unfolding receive_file_list or_fail
  receive_file_list_run tokens rest log =
      rw
        (
          receive_string_from_chunks-whole
              (json.file_list.to_string (RtcFileListResponse.ok tokens)) rest,
          json.file_list.from_slice-to_string (RtcFileListResponse.ok tokens),
        )
        refl

  pub send_file_list_run :
      (files : List FileDto) (incoming : List DataChannelMessage) (log : List Effect)
      → send_file_list json works c parse_public_key files (channels incoming log) ≡ (
        ok tt,
        channels incoming (
            log
            ++ map message (whole (json.pin_sending.to_string (RtcPinSendingResponse.ok files)))),
      )
  unfolding send_file_list or_status
  send_file_list_run files incoming log =
      rw
        (send_whole_lem json (json.pin_sending.to_string (RtcPinSendingResponse.ok files)) incoming
          log)
        refl

  -- What the task logs before the files.
  abbrev pub offered : List FileDto → List (Text × Text) → List Effect → List Effect
  offered files tokens log =
      ((log ++ status RtcStatus.connected ∷ [])
        ++ map message (whole (json.pin_sending.to_string (RtcPinSendingResponse.ok files))))
      ++ selection (keys tokens) ∷ []

  after_tokens_lem :
      (files : List FileDto) (sending : List RtcFile) (pair_answer : Option Bool) (nonce : Bytes)
      (token : Text) (tokens : List (Text × Text)) (rest : List DataChannelMessage)
      (log : List Effect)
      → after_tokens json works c parse_public_key none files sending pair_answer nonce
          (token, false)
          (channels (whole (json.file_list.to_string (RtcFileListResponse.ok tokens)) ++ rest) log)
        ≡ send_files json works tokens sending (channels rest (offered files tokens log))
  unfolding after_tokens enter_pin ask_pin perform choose send_selected
  after_tokens_lem files sending pair_answer nonce token tokens rest log =
      let connected : List Effect = log ++ status RtcStatus.connected ∷ [] in
      rw
        (
          send_file_list_run files
              (whole (json.file_list.to_string (RtcFileListResponse.ok tokens)) ++ rest) connected,
          receive_file_list_run tokens rest (
              connected
              ++ map message (whole (json.pin_sending.to_string (RtcPinSendingResponse.ok files)))),
        )
        refl

  abbrev pub greeting : Bytes → Text → List Effect
  greeting nonce token =
      text_message (json.nonce.to_string (record { nonce = c.encode nonce }))
      ∷ text_message (json.token_request.to_string (record { token = token }))
      ∷ []

  pub send_task_run :
      (local remote : Bytes) (key : c.SigningKey) (expecting : Option VerifyingTokenKey)
      (files : List FileDto) (sending : List RtcFile) (pair_answer : Option Bool)
      (remote_token token : Text) (tokens : List (Text × Text)) (rest : List DataChannelMessage)
      → c.decode (c.encode remote) ≡ ok remote
      → validate_nonce remote ≡ true
      → IsVerified c expecting (local ++ remote) remote_token
      → generate_token_nonce c key (local ++ remote) ≡ ok token
      → send_task json works c parse_public_key true local key expecting none files sending
          pair_answer
          (channels
            (said (json.nonce.to_string (record { nonce = c.encode remote }))
              ∷ said (json.token_response.to_string (RtcTokenResponse.ok remote_token))
              ∷ (whole (json.file_list.to_string (RtcFileListResponse.ok tokens)) ++ rest))
            [])
        ≡ send_files json works tokens sending
            (channels rest (offered files tokens (greeting local token)))
  unfolding send_task
  send_task_run local remote key expecting files sending pair_answer remote_token token tokens rest
        coded valid verified made =
      rw
        (
          exchange_nonce_run local remote _ [] coded valid,
          exchange_token_run key expecting (local ++ remote) remote_token token _ _ verified made,
        )
        (after_tokens_lem files sending pair_answer (local ++ remote) remote_token tokens rest
          (greeting local token))
