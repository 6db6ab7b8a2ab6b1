-- ===== src/Server/Upgrade.antt =====
-- server/src/controller/ws_controller.rs: `ws_handler`, which reads a request for a socket before
-- `handle_socket` takes the socket over.
pub mod Forwarded
pub mod Tests
use localsend_uyava.Prelude.{
  ℕ, ℕ-Eq, ◌==◌, List, [], ◌∷◌, Option, none, some, Bytes, Text, Result, if◌then◌else◌,
}
use localsend_uyava.Prelude as Base
use localsend_uyava.Model.{Codec}
use localsend_uyava.Crypto.Token.{push_head}
use localsend_uyava.Signaling.{Uuid, ClientInfo, ClientInfoWithoutId, with_id}
use localsend_uyava.Server.Error.{AppError, status}
use localsend_uyava.Server.IpGroup.{IpAddr, get_ip_group}

-- What the crates and the standard library give: url-safe base64, the check that bytes are UTF-8,
-- serde_json, the text of a header's value, `str::trim`, and the parser of addresses.
pub record Web : Type 0 where
  pub decode : Text → Result Bytes
  pub from_utf8 : Bytes → Option Text
  pub info : Codec ClientInfoWithoutId
  pub to_str : Bytes → Option Text
  pub trim : Text → Text
  pub parse_ip : Text → Option IpAddr

-- `split(',')`
unfoldable pub split_on : ℕ → Text → List Text
split_on separator [] = [] ∷ []
split_on separator (c ∷ s) =
    let rest = split_on separator s in if c == separator then [] ∷ rest else push_head c rest

unfoldable pub last : List Text → Option Text
last [] = none
last (t ∷ []) = some t
last (t ∷ next ∷ more) = last (next ∷ more)

abbrev pub and_then {ℓ κ} : {A : Type ℓ} {B : Type κ} → Option A → (A → Option B) → Option B
and_then none f = none
and_then (some a) f = f a

abbrev pub or_else {ℓ} : {A : Type ℓ} → Option A → A → A
or_else none d = d
or_else (some a) d = a

abbrev pub ok_of {ℓ} : {A : Type ℓ} → Result A → Option A
ok_of (Result.ok a) = some a
ok_of (Result.err e) = none

-- The error, or the group and the peer that `handle_socket` is called with.
abbrev pub upgrade : IpAddr → Option ClientInfo → Option AppError × Option (Text × ClientInfo)
upgrade ip none = (some (status 400 none), none)
upgrade ip (some peer) = (none, some (get_ip_group ip, peer))

module _ (web : Web) where
  -- The peer's information, or status 400 for whatever does not parse. `id` is `Uuid::new_v4()`.
  unfoldable pub peer_info : Text → Uuid → Option ClientInfo
  peer_info d id = and_then (ok_of (web.decode d)) λ bytes.
      and_then (web.from_utf8 bytes)
        λ text. and_then (web.info.from_slice text) λ info. some (with_id info id)

  -- The last address of the header `x-forwarded-for`, if it can be read.
  unfoldable pub raw_forwarded : Option Bytes → Option IpAddr
  unfolding split_on last
  raw_forwarded header = and_then header λ value.
      and_then (web.to_str value)
        λ text. and_then (last (split_on b',' text)) λ component. web.parse_ip (web.trim component)

  unfoldable pub ws_handler :
      Text → Uuid → Option Bytes → IpAddr → Option AppError × Option (Text × ClientInfo)
  unfolding peer_info raw_forwarded
  ws_handler d id forwarded addr = upgrade (or_else (raw_forwarded forwarded) addr) (peer_info d id)
