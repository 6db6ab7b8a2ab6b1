-- ===== src/Webrtc/Session/Turns.antt =====
-- What the two tasks have sent when their messages run out.
use localsend_uyava.Prelude.{
  Text-Eq, ◌≡◌, refl, List, [], ◌∷◌, ◌++◌, map, Option, none, some, Bool, true, Bytes, Text, Result,
  ok,
}
use localsend_uyava.Model.{FileDto}
use localsend_uyava.Crypto.Nonce.{validate_nonce}
use localsend_uyava.Crypto.Token.{Crypto, VerifyingTokenKey, generate_token_nonce}
use localsend_uyava.Webrtc.Chunks.{DataChannelMessage, receive_string_from_chunks}
use localsend_uyava.Webrtc.Messages.{
  Json, RtcStatus, RtcTokenResponse, RtcPinSendingResponse, RtcSendFileResponse,
}
use localsend_uyava.Webrtc.Io.{message, status, Io, perform, recv, take_first}
use localsend_uyava.Webrtc.Pin.{or_fail, receive_chunks}
use localsend_uyava.Webrtc.Transfer.{RtcFile}
use localsend_uyava.Webrtc.Transfer.Sender.{works}
use localsend_uyava.Webrtc.Handshake.{receive_text, receive_nonce, of_result, send_text, send_nonce}
use localsend_uyava.Webrtc.Handshake.Sending
use localsend_uyava.Webrtc.Handshake.Accepting
use localsend_uyava.Webrtc.Trust.{IsVerified}
use localsend_uyava.Webrtc.Session.{said, whole, channels}
use localsend_uyava.Webrtc.Session.Sending as OfSender
use localsend_uyava.Webrtc.Session.Accepting as OfReceiver

-- The empty text is no JSON.
abbrev pub EmptyIsNone : Json → Type 0
EmptyIsNone json = (json.file_list.from_slice [] ≡ none) × (json.pin_sending.from_slice [] ≡ none)

module _ (json : Json) (c : Crypto) where
  abbrev pub nonce_said : Bytes → DataChannelMessage
  nonce_said nonce = said (json.nonce.to_string (record { nonce = c.encode nonce }))

  abbrev pub request_said : Text → DataChannelMessage
  request_said token = said (json.token_request.to_string (record { token = token }))

  abbrev pub response_said : Text → DataChannelMessage
  response_said token = said (json.token_response.to_string (RtcTokenResponse.ok token))

  abbrev pub offer_said : List FileDto → List DataChannelMessage
  offer_said files = whole (json.pin_sending.to_string (RtcPinSendingResponse.ok files))

  module _ (parse_public_key : Text → Text → Result VerifyingTokenKey) (local : Bytes)
      (key : c.SigningKey) (expecting : Option VerifyingTokenKey) (files : List FileDto)
      (sending : List RtcFile) (pair_answer : Option Bool) where
    abbrev sends : List DataChannelMessage → Result (Unit {0}) × Io
    sends incoming =
        Sending.send_task json works c parse_public_key true local key expecting none files sending
          pair_answer (channels incoming [])

    pub sends-nothing : (sends []).1.log ≡ message (nonce_said local) ∷ []
    unfolding Sending.send_task Sending.exchange_nonce receive_nonce receive_text recv take_first
        or_fail send_nonce send_text perform
    sends-nothing = refl

    module _ (remote : Bytes) (coded : c.decode (c.encode remote) ≡ ok remote)
        (valid : validate_nonce remote ≡ true) (token : Text)
        (made : generate_token_nonce c key (local ++ remote) ≡ ok token) where
      pub sends-nonce :
          (sends (nonce_said remote ∷ [])).1.log
          ≡ message (nonce_said local) ∷ message (request_said token) ∷ []
      unfolding Sending.send_task Sending.exchange_token receive_text recv take_first or_fail
          of_result send_text perform
      sends-nonce =
          rw
            (
              OfSender.exchange_nonce_run json c parse_public_key local remote [] [] coded valid,
              made,
            )
            refl

      pub sends-response :
          (remote_token : Text)
          → EmptyIsNone json
          → IsVerified c expecting (local ++ remote) remote_token
          → (sends (nonce_said remote ∷ response_said remote_token ∷ [])).1.log
            ≡ message (nonce_said local)
              ∷ message (request_said token)
              ∷ status RtcStatus.connected
              ∷ map message (offer_said files)
      unfolding Sending.send_task Sending.after_tokens Sending.enter_pin Sending.ask_pin perform
          Sending.receive_file_list receive_chunks or_fail receive_string_from_chunks
      sends-response remote_token empty verified =
          rw
            (
              OfSender.exchange_nonce_run json c parse_public_key local remote
                  (response_said remote_token ∷ []) [] coded valid,
              OfSender.exchange_token_run json c parse_public_key key expecting (local ++ remote)
                  remote_token token [] (message (nonce_said local) ∷ []) verified made,
              OfSender.send_file_list_run json c parse_public_key files [] (
                  message (nonce_said local)
                  ∷ message (request_said token)
                  ∷ status RtcStatus.connected
                  ∷ []),
              empty.0,
            )
            refl

  module _ (local : Bytes) (fresh : Text → Text) (key : c.SigningKey)
      (expecting : Option VerifyingTokenKey) (ids : List Text) (results : List RtcSendFileResponse)
      (remote : Bytes) (coded : c.decode (c.encode remote) ≡ ok remote)
      (valid : validate_nonce remote ≡ true) (token : Text)
      (made : generate_token_nonce c key (remote ++ local) ≡ ok token) where
    abbrev receives : List DataChannelMessage → Result (Unit {0}) × Io
    receives incoming =
        Accepting.receive_task json works c true local fresh key expecting none (some (some ids))
          results (channels incoming [])

    pub receives-nonce : (receives (nonce_said remote ∷ [])).1.log ≡ message (nonce_said local) ∷ []
    unfolding Accepting.receive_task Accepting.exchange_token receive_text recv take_first or_fail
    receives-nonce = rw (OfReceiver.exchange_nonce_run json c remote local [] [] coded valid) refl

    pub receives-request :
        (remote_token : Text)
        → EmptyIsNone json
        → IsVerified c expecting (remote ++ local) remote_token
        → (receives (nonce_said remote ∷ request_said remote_token ∷ [])).1.log
          ≡ message (nonce_said local) ∷ message (response_said token) ∷ []
    unfolding Accepting.receive_task Accepting.after_tokens Accepting.ask_pin
        Accepting.receive_pin_response receive_chunks or_fail receive_string_from_chunks
    receives-request remote_token empty verified =
        rw
          (
            OfReceiver.exchange_nonce_run json c remote local (request_said remote_token ∷ []) []
                coded valid,
            OfReceiver.exchange_token_run json c key expecting (remote ++ local) remote_token token
                [] (message (nonce_said local) ∷ []) verified made,
            empty.1,
          )
          refl
