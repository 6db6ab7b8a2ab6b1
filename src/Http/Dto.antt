-- ===== src/Http/Dto.antt =====
-- core/src/http/dto.rs, state.rs and mod.rs: what server and client exchange, and its JSON.
use localsend_uyava.Prelude.{ℕ, List, Option, Bool, Text, ascii}
use localsend_uyava.Model.{Codec, DeviceType, FileDto}

-- `http::state::ClientInfo`
pub record ClientInfo : Type 0 where
  pub alias : Text
  pub version : Text
  pub device_model : Option Text
  pub device_type : Option DeviceType
  pub token : Text

pub record NonceRequest : Type 0 where
  pub nonce : Text

pub record NonceResponse : Type 0 where
  pub nonce : Text

pub record ErrorResponse : Type 0 where
  pub message : Text

pub data ProtocolType : Type 0 where
  http https : ProtocolType

unfoldable pub as_str : ProtocolType → Text
as_str ProtocolType.http = ascii "http"
as_str ProtocolType.https = ascii "https"

-- `port` is a u16.
pub record RegisterDto : Type 0 where
  pub alias : Text
  pub version : Text
  pub device_model : Option Text
  pub device_type : Option DeviceType
  pub token : Text
  pub port : ℕ
  pub protocol : ProtocolType
  pub has_web_interface : Bool

pub record RegisterResponseDto : Type 0 where
  pub alias : Text
  pub version : Text
  pub device_model : Option Text
  pub device_type : Option DeviceType
  pub token : Text
  pub has_web_interface : Bool

-- The maps from the identifiers of files are lists of their entries.
pub record PrepareUploadRequestDto : Type 0 where
  pub info : RegisterDto
  pub files : List (Text × FileDto)

pub record PrepareUploadResponseDto : Type 0 where
  pub session_id : Text
  pub files : List (Text × Text)

-- `status` is a u16.
pub record StatusCodeError : Type 0 where
  pub status : ℕ
  pub message : Option Text

-- serde_json at the types of the protocol.
pub record Json : Type 0 where
  pub nonce_request : Codec NonceRequest
  pub nonce_response : Codec NonceResponse
  pub error_response : Codec ErrorResponse
  pub register : Codec RegisterDto
  pub register_response : Codec RegisterResponseDto
  pub prepare_upload : Codec PrepareUploadRequestDto
  pub prepare_upload_response : Codec PrepareUploadResponseDto
