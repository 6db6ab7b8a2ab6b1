-- ===== src/Webrtc/Session/Accepting.antt =====
-- `receive_task` with a sending peer that keeps to the protocol.
use localsend_uyava.Prelude.{
  Text-Eq, ◌≡◌, refl, List, [], ◌∷◌, ◌++◌, map, Option, none, some, true, Bytes, Text, ok,
}
use localsend_uyava.Model.{FileDto}
use localsend_uyava.Crypto.Nonce.{validate_nonce}
use localsend_uyava.Crypto.Token.{Crypto, VerifyingTokenKey, generate_token_nonce}
use localsend_uyava.Webrtc.Chunks.{DataChannelMessage}
use localsend_uyava.Webrtc.Messages.{
  Json, RtcStatus, RtcTokenResponse, RtcPinSendingResponse, RtcFileListResponse,
  RtcSendFileResponse,
}
use localsend_uyava.Webrtc.Io.{Effect, message, status, file_list, Io, perform, recv, take_first}
use localsend_uyava.Webrtc.Pin.{or_fail, text_message}
use localsend_uyava.Webrtc.Transfer.{receive_files}
use localsend_uyava.Webrtc.Transfer.Sender.{works}
use localsend_uyava.Webrtc.Handshake.{
  of_result, of_outcome, receive_text, receive_nonce, check_token, send_text, send_nonce,
}
use localsend_uyava.Webrtc.Handshake.Accepting.{
  collect, exchange_nonce, verify_remote, exchange_token, ask_pin, receive_pin_response, enter_pin,
  receive_all, after_selection, after_tokens, receive_task,
}
use localsend_uyava.Webrtc.Trust.{IsVerified}
use localsend_uyava.Webrtc.Session.{
  said, whole, channels, send_whole_lem, receive_string_from_chunks-whole,
}

module _ (json : Json) (c : Crypto) where
  pub exchange_nonce_run :
      (remote local : Bytes) (rest : List DataChannelMessage) (log : List Effect)
      → c.decode (c.encode remote) ≡ ok remote
      → validate_nonce remote ≡ true
      → exchange_nonce json works c local
          (channels (said (json.nonce.to_string (record { nonce = c.encode remote })) ∷ rest) log)
        ≡ (
          ok (remote ++ local),
          channels rest
              (log ++ text_message (json.nonce.to_string (record { nonce = c.encode local })) ∷ []),
        )
  unfolding exchange_nonce receive_nonce receive_text recv take_first or_fail of_result send_nonce
      send_text perform
  exchange_nonce_run remote local rest log coded valid =
      rw (json.nonce.from_slice-to_string (record { nonce = c.encode remote }), coded, valid) refl

  verify_remote_run :
      (expecting : Option VerifyingTokenKey) (nonce : Bytes) (token : Text) (io : Io)
      → IsVerified c expecting nonce token
      → verify_remote json works c expecting nonce token io ≡ (ok tt, io)
  unfolding verify_remote check_token of_outcome
  verify_remote_run none nonce token io verified = refl
  verify_remote_run (some key) nonce token io verified = rw verified refl

  pub exchange_token_run :
      (key : c.SigningKey) (expecting : Option VerifyingTokenKey) (nonce : Bytes)
      (remote_token token : Text) (rest : List DataChannelMessage) (log : List Effect)
      → IsVerified c expecting nonce remote_token
      → generate_token_nonce c key nonce ≡ ok token
      → exchange_token json works c key expecting none nonce (
          channels
            (said (json.token_request.to_string (record { token = remote_token })) ∷ rest)
            log)
        ≡ (
          ok tt,
          channels rest (
              log ++ text_message (json.token_response.to_string (RtcTokenResponse.ok token)) ∷ []),
        )
  unfolding exchange_token receive_text recv take_first or_fail of_result send_text perform
  exchange_token_run key expecting nonce remote_token token rest log verified made =
      rw
        (
          json.token_request.from_slice-to_string (record { token = remote_token }),
          verify_remote_run expecting nonce remote_token (channels rest log) verified,
          made,
        )
        refl

  -- What the task logs after the tokens, up to the files.
  abbrev pub shown : List FileDto → List (Text × Text) → List Effect → List Effect
  shown files tokens log =
      ((log ++ status RtcStatus.connected ∷ []) ++ file_list files ∷ [])
      ++ map message (whole (json.file_list.to_string (RtcFileListResponse.ok tokens)))

  receive_pin_response_run :
      (files : List FileDto) (rest : List DataChannelMessage) (log : List Effect)
      → receive_pin_response json works c (
          channels
            (whole (json.pin_sending.to_string (RtcPinSendingResponse.ok files)) ++ rest)
            log)
        ≡ (ok (RtcPinSendingResponse.ok files), channels rest log)
  unfolding receive_pin_response or_fail
  receive_pin_response_run files rest log =
      rw
        (
          receive_string_from_chunks-whole
              (json.pin_sending.to_string (RtcPinSendingResponse.ok files)) rest,
          json.pin_sending.from_slice-to_string (RtcPinSendingResponse.ok files),
        )
        refl

  after_selection_run :
      (fresh : Text → Text) (ids : List Text) (results : List RtcSendFileResponse)
      (files : List FileDto) (msgs : List DataChannelMessage) (log : List Effect)
      → after_selection json works c fresh results files (some (some ids)) (channels msgs log)
        ≡ receive_files json works files (collect fresh ids []) none results msgs (
            channels [] (
              log
              ++ map message (
                  whole
                    (json.file_list.to_string (RtcFileListResponse.ok (collect fresh ids []))))))
  unfolding after_selection receive_all
  after_selection_run fresh ids results files msgs log =
      rw
        (send_whole_lem json
          (json.file_list.to_string (RtcFileListResponse.ok (collect fresh ids []))) msgs log)
        refl

  after_tokens_lem :
      (fresh : Text → Text) (ids : List Text) (results : List RtcSendFileResponse)
      (files : List FileDto) (msgs : List DataChannelMessage) (log : List Effect)
      → after_tokens json works c fresh none (some (some ids)) results (
          channels
            (whole (json.pin_sending.to_string (RtcPinSendingResponse.ok files)) ++ msgs)
            log)
        ≡ receive_files json works files
            (collect fresh ids [])
            none
            results
            msgs
            (channels [] (shown files (collect fresh ids []) log))
  unfolding after_tokens ask_pin enter_pin perform
  after_tokens_lem fresh ids results files msgs log = rw (receive_pin_response_run files msgs log) (
      after_selection_run fresh ids results files msgs
        ((log ++ status RtcStatus.connected ∷ []) ++ file_list files ∷ []))

  abbrev pub greeting : Bytes → Text → List Effect
  greeting nonce token =
      text_message (json.nonce.to_string (record { nonce = c.encode nonce }))
      ∷ text_message (json.token_response.to_string (RtcTokenResponse.ok token))
      ∷ []

  pub receive_task_run :
      (local remote : Bytes) (fresh : Text → Text) (key : c.SigningKey)
      (expecting : Option VerifyingTokenKey) (ids : List Text) (results : List RtcSendFileResponse)
      (remote_token token : Text) (files : List FileDto) (msgs : List DataChannelMessage)
      → c.decode (c.encode remote) ≡ ok remote
      → validate_nonce remote ≡ true
      → IsVerified c expecting (remote ++ local) remote_token
      → generate_token_nonce c key (remote ++ local) ≡ ok token
      → receive_task json works c true local fresh key expecting none (some (some ids)) results (
          channels
            (said (json.nonce.to_string (record { nonce = c.encode remote }))
              ∷ said (json.token_request.to_string (record { token = remote_token }))
              ∷ (whole (json.pin_sending.to_string (RtcPinSendingResponse.ok files)) ++ msgs))
            [])
        ≡ receive_files json works files
            (collect fresh ids [])
            none
            results
            msgs
            (channels [] (shown files (collect fresh ids []) (greeting local token)))
  unfolding receive_task
  receive_task_run local remote fresh key expecting ids results remote_token token files msgs coded
        valid verified made =
      rw
        (
          exchange_nonce_run remote local _ [] coded valid,
          exchange_token_run key expecting (remote ++ local) remote_token token _ _ verified made,
        )
        (after_tokens_lem fresh ids results files msgs (greeting local token))
