-- ===== src/Model.antt =====
-- core/src/model/: the data that the channels share (discovery.rs, transfer.rs), and how a type is
-- turned into JSON.
pub mod Format
use localsend_uyava.Prelude.{ℕ, ◌≡◌, Option, some, Bytes, Text}

pub data DeviceType : Type 0 where
  mobile desktop web headless server : DeviceType

pub record FileMetadata : Type 0 where
  pub modified : Option Text
  pub accessed : Option Text

-- `size` is a u64.
pub record FileDto : Type 0 where
  pub id : Text
  pub file_name : Text
  pub size : ℕ
  pub file_type : Text
  pub sha256 : Option Text
  pub preview : Option Text
  pub metadata : Option FileMetadata

-- What serde_json does for one type: `to_string` of a value parses back to it.
pub record Codec (A : Type 0) : Type 0 where
  pub to_string : A → Bytes
  pub from_slice : Bytes → Option A
  pub from_slice-to_string : (a : A) → from_slice (to_string a) ≡ some a
