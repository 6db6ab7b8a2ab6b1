-- ===== src/Server/System.antt =====
-- The server with all its sockets, as the sequence of the blocks that hold a lock. The steps of
-- different sockets interleave freely: a message is charged to the quota in one block and handled
-- in another, as `recv_task` does, and the hourly job may run at any time.
pub mod Presence
pub mod Sound
use localsend_uyava.Prelude.{ℕ-Eq, Text-Eq, ◌≡◌, ◌≢◌, List, [], none, some, Text}
use localsend_uyava.Prelude.Dict.{get, insert, remove}
use localsend_uyava.Signaling.{Uuid, ClientInfo, WsClientMessage}
use localsend_uyava.Server.State.{Limits, Sender, AppState, new, protect_ddos_request_count, clear}
use localsend_uyava.Server.Socket.{connect, limit_reached, joined, dispatch, disconnect}

-- What `handle_socket` keeps for itself while its tasks run.
pub record Socket : Type 0 where
  pub group : Text
  pub peer : ClientInfo
  pub tx : Sender

pub record System : Type 0 where
  pub app : AppState
  pub sockets : List (Uuid × Socket)

unfoldable pub start : System
start = record { app = new; sockets = [] }

abbrev pub FreshChannel : Sender → System → Type 0
FreshChannel tx y = (id : Uuid) (k : Socket) → get id y.sockets ≡ some k → k.tx ≢ tx

unfoldable pub open_socket : Limits → System → Text → ClientInfo → Sender → System
open_socket limits y g peer tx = record {
  app = (connect limits y.app g peer tx).0;
  sockets = elim (connect limits y.app g peer tx).1 [
    | limit_reached ↦ y.sockets
    | joined sends ↦ insert peer.id (record { group = g; peer = peer; tx = tx }) y.sockets
  ];
}

-- `Uuid::new_v4` makes an identifier, and `mpsc::channel` a channel, that no open socket has.
pub data Step (limits : Limits) : System → System → Type 0 where
  connects :
      (y : System) (g : Text) (peer : ClientInfo) (tx : Sender)
      → get peer.id y.sockets ≡ none
      → FreshChannel tx y
      → Step limits y (open_socket limits y g peer tx)
  charges :
      (y : System) (g : Text)
      → Step limits y (record y {
        app = record y.app {
          request_count_map =
              (protect_ddos_request_count limits.max_requests y.app.request_count_map g).0;
        };
      })
  dispatches :
      (y : System) (id : Uuid) (k : Socket) (msg : WsClientMessage)
      → get id y.sockets ≡ some k
      → Step limits y (record y { app = (dispatch y.app k.group k.peer msg).0 })
  disconnects :
      (y : System) (id : Uuid) (k : Socket)
      → get id y.sockets ≡ some k
      → Step limits y
          (record { app = (disconnect y.app k.group k.peer.id).0; sockets = remove id y.sockets })
  clears : (y : System) → Step limits y (record y { app = clear y.app })

pub data Reach (limits : Limits) : System → Type 0 where
  begin : Reach limits start
  next : {y z : System} → Reach limits y → Step limits y z → Reach limits z
