-- ===== src/Server/State.antt =====
-- server/src/config/state.rs and scheduler.rs, and the request quota of ws_controller.rs.
use localsend_uyava.Prelude.{
  ℕ, ℕ-Eq, Text-Eq, ◌+◌, ◌%◌, ◌^◌, List, [], Option, none, some, Bool, true, false, Text, leb,
  if◌then◌else◌,
}
use localsend_uyava.Prelude.Dict.{get, insert}
use localsend_uyava.Signaling.{Uuid, ClientInfoWithoutId, WsServerMessage}

-- The environment's `MAX_CONNECTIONS_PER_IP` (usize) and `MAX_REQUESTS_PER_IP_PER_HOUR` (u32).
pub record Limits : Type 0 where
  pub max_connections : ℕ
  pub max_requests : ℕ

-- A clone of an `mpsc::Sender` is the same channel: the number of the channel.
abbrev pub Sender : Type 0
Sender = ℕ

pub record ClientState : Type 0 where
  pub client : ClientInfoWithoutId
  pub tx : Sender

-- The peers of an IP group.
abbrev pub Room : Type 0
Room = List (Uuid × ClientState)

abbrev pub TxMap : Type 0
TxMap = List (Text × Room)

abbrev pub IpRequestCountMap : Type 0
IpRequestCountMap = List (Text × ℕ)

pub record AppState : Type 0 where
  pub tx_map : TxMap
  pub request_count_map : IpRequestCountMap

unfoldable pub new : AppState
new = record { tx_map = []; request_count_map = [] }

-- A call of `send` on a channel.
abbrev pub Send : Type 0
Send = Sender × WsServerMessage

abbrev pub get_or {ℓ} : {A : Type ℓ} → A → Option A → A
get_or d none = d
get_or d (some a) = a

-- `entry(group).or_insert_with(HashMap::new)`, and the empty map where there is none.
unfoldable pub room : Text → TxMap → Room
room group m = get_or [] (get group m)

unfoldable pub count : Text → IpRequestCountMap → ℕ
count group m = get_or 0 (get group m)

-- `protect_ddos_request_count`: the map afterwards, and whether the request may pass. The entry is
-- made before the test. `count` is a u32.
unfoldable pub protect_ddos_request_count : ℕ → IpRequestCountMap → Text → IpRequestCountMap × Bool
unfolding count
protect_ddos_request_count max m group =
    if leb max (count group m)
    then (insert group (count group m) m, false)
    else (insert group ((count group m + 1) % 2 ^ 32) m, true)

-- The hourly job of `configure_scheduling`.
unfoldable pub clear : AppState → AppState
clear s = record s { request_count_map = [] }
