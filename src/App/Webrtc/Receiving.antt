-- ===== src/App/Webrtc/Receiving.antt =====
-- app/rust/src/api/webrtc.rs: `RTCReceiveController` and `RTCFileReceiver`, what an application
-- has of a transfer that it receives.
pub mod Calls
pub mod Decided
pub mod File
use localsend_uyava.Prelude.{
  List, [], ◌∷◌, ◌++◌, map, Option, none, some, Bool, true, false, Bytes, Text, ascii, Result, ok,
  err, if◌then◌else◌,
}
use localsend_uyava.Model.{FileDto}
use localsend_uyava.Webrtc.Messages.{RtcStatus, RtcFileError, RtcSendFileResponse}
use localsend_uyava.Webrtc.Transfer.{RtcFile}
use localsend_uyava.App.Webrtc.{Sunk, add, add_error}
use localsend_uyava.App.Webrtc.PinSender
use localsend_uyava.App.Webrtc.PinSender.{PinSender}

-- `RTCFileReceiver`
pub record RtcFileReceiver : Type 0 where
  pub file_id : Text
  pub binary_rx : Option (List Bytes)

-- `RTCReceiveController` with what the core library has got through its channels. A receiver is
-- what it will give until it is closed, that of a oneshot `none` where the sender is dropped, and
-- each is taken by its first use. `selected` is what `selected_rx` of the core library gives.
pub record RtcReceiveController : Type 0 where
  pub status_rx : Option (List RtcStatus)
  pub files_rx : Option (Option (List FileDto))
  pub selected_tx : Option (Unit {0})
  pub error_rx : Option (List RtcFileError)
  pub pin_tx : PinSender
  pub receiving_rx : Option (List RtcFile)
  pub selected : Option (Option (List Text))
  pub file_status : List RtcSendFileResponse

-- What `accept_offer` returns, for what the core library will send.
unfoldable pub accepted :
    List RtcStatus → Option (List FileDto) → List RtcFileError → List RtcFile → RtcReceiveController
accepted statuses files errors receiving = record {
  status_rx = some statuses;
  files_rx = some files;
  selected_tx = some tt;
  error_rx = some errors;
  pin_tx = PinSender.empty;
  receiving_rx = some receiving;
  selected = none;
  file_status = [];
}

-- A loop over a receiver that feeds a sink, if the receiver has not been taken.
unfoldable pub drain : {A B : Type 0} → (A → B) → Text → Option (List A) → List (Sunk B)
drain f message none = add_error message ∷ []
drain f message (some items) = map (λ a. add (f a)) items

-- Each of these operations gives what the sink gets.
unfoldable pub listen_status : RtcReceiveController → List (Sunk RtcStatus) × RtcReceiveController
unfolding drain
listen_status r = (
  drain (λ s. s) (ascii "Status stream already listened to") r.status_rx,
  record r { status_rx = none },
)

unfoldable pub listen_error : RtcReceiveController → List (Sunk RtcFileError) × RtcReceiveController
unfolding drain
listen_error r = (
  drain (λ e. e) (ascii "Error stream already listened to") r.error_rx,
  record r { error_rx = none },
)

unfoldable pub receiver_of : RtcFile → RtcFileReceiver
receiver_of file = record { file_id = file.file_id; binary_rx = some file.binary_rx }

unfoldable pub listen_receiving :
    RtcReceiveController → List (Sunk RtcFileReceiver) × RtcReceiveController
unfolding drain receiver_of
listen_receiving r = (
  drain receiver_of (ascii "Receiving stream already listened to") r.receiving_rx,
  record r { receiving_rx = none },
)

abbrev pub awaited : Option (Option (List FileDto)) → Result (List FileDto)
awaited none = err (ascii "Files already received")
awaited (some none) = err (ascii "Files channel closed")
awaited (some (some files)) = ok files

unfoldable pub listen_files : RtcReceiveController → Result (List FileDto) × RtcReceiveController
listen_files r = (awaited r.files_rx, record r { files_rx = none })

-- `alive` says whether the core library still waits.
unfoldable pub send_pin :
    Bool → Text → RtcReceiveController → Result (Unit {0}) × RtcReceiveController
send_pin alive pin r =
    let sent = PinSender.send_pin alive pin r.pin_tx in (sent.0, record r { pin_tx = sent.1 })

abbrev pub decide :
    Bool
    → Option (List Text)
    → Option (Unit {0})
    → RtcReceiveController
    → Result (Unit {0}) × RtcReceiveController
decide alive decision none r = (err (ascii "Selected files already sent"), r)
decide true decision (some u) r = (ok tt, record r { selected_tx = none; selected = some decision })
decide false decision (some u) r =
    (err (ascii "Selected files channel closed"), record r { selected_tx = none })

unfoldable pub send_selection :
    Bool → List Text → RtcReceiveController → Result (Unit {0}) × RtcReceiveController
send_selection alive selection r = decide alive (some selection) r.selected_tx r

unfoldable pub decline : Bool → RtcReceiveController → Result (Unit {0}) × RtcReceiveController
decline alive r = decide alive none r.selected_tx r

unfoldable pub send_file_status :
    Bool → RtcSendFileResponse → RtcReceiveController → Result (Unit {0}) × RtcReceiveController
send_file_status alive response r =
    if alive
    then (ok tt, record r { file_status = r.file_status ++ response ∷ [] })
    else (err (ascii "channel closed"), r)
