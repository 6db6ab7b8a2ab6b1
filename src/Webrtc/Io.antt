-- ===== src/Webrtc/Io.antt =====
-- The channels that a task of webrtc.rs works with, as a state: what is still to be received, and
-- what has been sent, in order.
use localsend_uyava.Prelude.{
  ◌≡◌, refl, List, [], ◌∷◌, ◌++◌, Option, none, some, Bool, Bytes, Text, ascii, Result, Act,
  continue, ok, err, if◌then◌else◌, arith,
}
use localsend_uyava.Model.{FileDto}
use localsend_uyava.Webrtc.Messages.{RtcStatus, RtcFileError}
use localsend_uyava.Webrtc.Chunks.{DataChannelMessage}

pub data Effect : Type 0 where
  -- On `status_tx`, the data channel, `pin_tx` and `pair_tx`.
  status : RtcStatus → Effect
  message : DataChannelMessage → Effect
  pin_request pair_request : Effect
  -- On `files_tx`, `selected_files_tx`, `error_tx` and `receiving_tx`.
  file_list : List FileDto → Effect
  selection : List Text → Effect
  file_error : RtcFileError → Effect
  -- A file is announced, and bytes of it are published on its `binary_tx`.
  file : Text → Effect
  binary : Text → Bytes → Effect

-- `incoming` is what `receive_rx` will give until it is closed. `pins` are the answers of the user
-- to requests for a PIN, `none` where the request is dropped.
pub record Io : Type 0 where
  pub incoming : List DataChannelMessage
  pub pins : List (Option Text)
  pub log : List Effect

-- A task of one peer: it ends with a value or an error, and with the channels as it leaves them.
abbrev pub Task : Type 0 → Type 0
Task = Act Io

infixl 5 ◌>>=◌ ◌>>◌
abbrev pub ◌>>=◌ : {A B : Type 0} → Task A → (A → Task B) → Task B
◌>>=◌ m f io = continue (m io) f

abbrev pub ◌>>◌ : {B : Type 0} → Task (Unit {0}) → Task B → Task B
m >> k = m >>= λ _. k

abbrev pub pure : {A : Type 0} → A → Task A
pure a io = (ok a, io)

abbrev pub fail : {A : Type 0} → Text → Task A
fail e io = (err e, io)

-- `let _ = …`: the error is dropped.
unfoldable pub attempt : Task (Unit {0}) → Task (Unit {0})
attempt m io = (ok tt, (m io).1)

-- `receive_rx.recv().await`
unfoldable pub take_first : List DataChannelMessage → Io → Result (Option DataChannelMessage) × Io
take_first [] io = (ok none, io)
take_first (msg ∷ rest) io = (ok (some msg), record io { incoming = rest })

unfoldable pub recv : Task (Option DataChannelMessage)
unfolding take_first
recv io = take_first io.incoming io

-- A send fails where the other end is gone. When that is, the environment decides: `alive` says of
-- each send, from what was sent before, whether it succeeds.
module _ (alive : List Effect → Effect → Bool) where
  unfoldable pub perform : Effect → Task (Unit {0})
  perform e io =
      if alive io.log e
      then (ok tt, record io { log = io.log ++ e ∷ [] })
      else (err (ascii "send"), io)

pub perform-incoming :
    (alive : List Effect → Effect → Bool) (e : Effect) (io io' : Io) (u : Unit {0})
    → perform alive e io ≡ (ok u, io')
    → io'.incoming ≡ io.incoming
unfolding perform
perform-incoming alive e io io' u h = ground arith

pub recv_lem :
    (io : Io)
    → (o : Option DataChannelMessage) × (io' : Io) × (recv io ≡ (ok o, io')) × (io'.log ≡ io.log)
unfolding recv
recv_lem io = go io.incoming
  where
    go :
        (ms : List DataChannelMessage)
        → (o : Option DataChannelMessage) × (io' : Io) × (take_first ms io ≡ (ok o, io'))
          × (io'.log ≡ io.log)
    go [] = (none, io, refl, refl)
    go (m ∷ ms) = (some m, record io { incoming = ms }, refl, refl)
