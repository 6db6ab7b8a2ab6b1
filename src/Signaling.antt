-- ===== src/Signaling.antt =====
-- core/src/webrtc/signaling.rs: the messages between the signaling server and its clients.
pub mod Client
pub mod Listener
pub mod Connect
mod Tests
use localsend_uyava.Prelude.{ℕ, List, Option, Text}
use localsend_uyava.Model.{DeviceType}

-- A 128-bit identifier.
abbrev pub Uuid : Type 0
Uuid = ℕ

pub record ClientInfo : Type 0 where
  pub id : Uuid
  pub alias : Text
  pub version : Text
  pub device_model : Option Text
  pub device_type : Option DeviceType
  pub token : Text

pub record ClientInfoWithoutId : Type 0 where
  pub alias : Text
  pub version : Text
  pub device_model : Option Text
  pub device_type : Option DeviceType
  pub token : Text

-- `ClientInfo::from`
abbrev pub with_id : ClientInfoWithoutId → Uuid → ClientInfo
with_id info id = record {
  id = id;
  alias = info.alias;
  version = info.version;
  device_model = info.device_model;
  device_type = info.device_type;
  token = info.token;
}

-- `ClientInfoWithoutId::from`
abbrev pub without_id : ClientInfo → ClientInfoWithoutId
without_id info = record {
  alias = info.alias;
  version = info.version;
  device_model = info.device_model;
  device_type = info.device_type;
  token = info.token;
}

pub record WsServerSdpMessage : Type 0 where
  pub peer : ClientInfo
  pub session_id : Text
  pub sdp : Text

pub data WsServerMessage : Type 0 where
  hello : ClientInfo → List ClientInfo → WsServerMessage
  join : ClientInfo → WsServerMessage
  update : ClientInfo → WsServerMessage
  left : Uuid → WsServerMessage
  offer : WsServerSdpMessage → WsServerMessage
  answer : WsServerSdpMessage → WsServerMessage
  error : ℕ → WsServerMessage

pub record WsClientSdpMessage : Type 0 where
  pub session_id : Text
  pub target : Uuid
  pub sdp : Text

pub data WsClientMessage : Type 0 where
  update : ClientInfoWithoutId → WsClientMessage
  offer : WsClientSdpMessage → WsClientMessage
  answer : WsClientSdpMessage → WsClientMessage
