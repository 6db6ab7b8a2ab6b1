-- ===== src/Webrtc/Messages.antt =====
-- core/src/webrtc/webrtc.rs: the messages of the data channel and what the caller is told.
use localsend_uyava.Prelude.{ℕ, List, Option, Bool, Text}
use localsend_uyava.Model.{FileDto, Codec}

pub record RtcNonceMessage : Type 0 where
  pub nonce : Text

pub record RtcTokenRequest : Type 0 where
  pub token : Text

pub data RtcTokenResponse : Type 0 where
  ok : Text → RtcTokenResponse
  pin_required : Text → RtcTokenResponse
  invalid_signature : RtcTokenResponse

pub record RtcPinMessage : Type 0 where
  pub pin : Text

pub data RtcPinReceivingResponse : Type 0 where
  ok pin_required too_many_attempts : RtcPinReceivingResponse

pub data RtcPinSendingResponse : Type 0 where
  ok : List FileDto → RtcPinSendingResponse
  pin_required too_many_attempts : RtcPinSendingResponse

-- `ok` carries the token of each file that was selected.
pub data RtcFileListResponse : Type 0 where
  ok : List (Text × Text) → RtcFileListResponse
  pair : Text → RtcFileListResponse
  declined invalid_signature : RtcFileListResponse

pub data RtcPairResponse : Type 0 where
  ok : Text → RtcPairResponse
  pair_declined invalid_signature : RtcPairResponse

pub record RtcSendFileHeaderRequest : Type 0 where
  pub id : Text
  pub token : Text

pub record RtcSendFileResponse : Type 0 where
  pub id : Text
  pub success : Bool
  pub error : Option Text

pub data RtcStatus : Type 0 where
  sdp_exchanged connected pin_required too_many_attempts declined sending finished : RtcStatus
  error : Text → RtcStatus

pub record RtcFileError : Type 0 where
  pub file_id : Text
  pub error : Text

-- `max_tries` is a u8.
pub record PinConfig : Type 0 where
  pub pin : Text
  pub max_tries : ℕ

-- serde_json at the types of the protocol. The crate and the code that it derives are not in the
-- repository.
pub record Json : Type 0 where
  pub nonce : Codec RtcNonceMessage
  pub token_request : Codec RtcTokenRequest
  pub token_response : Codec RtcTokenResponse
  pub pin : Codec RtcPinMessage
  pub pin_receiving : Codec RtcPinReceivingResponse
  pub pin_sending : Codec RtcPinSendingResponse
  pub file_list : Codec RtcFileListResponse
  pub pair : Codec RtcPairResponse
  pub header : Codec RtcSendFileHeaderRequest
  pub file_response : Codec RtcSendFileResponse
