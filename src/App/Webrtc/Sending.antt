-- ===== src/App/Webrtc/Sending.antt =====
-- app/rust/src/api/webrtc.rs: `RTCSendController` and `RTCFileSender`, what an application has of a
-- transfer that it sends.
pub mod Files
use localsend_uyava.Prelude.{
  ℕ, zero, suc, List, [], ◌∷◌, ◌++◌, map, length, Option, none, some, Bool, Bytes, Text, ascii,
  Result, ok, err, if◌then◌else◌,
}
use localsend_uyava.Webrtc.Messages.{RtcStatus, RtcFileError}
use localsend_uyava.Webrtc.Transfer.{RtcFile}
use localsend_uyava.App.Webrtc.{Sunk, add}
use localsend_uyava.App.Webrtc.PinSender
use localsend_uyava.App.Webrtc.PinSender.{PinSender}

-- `RTCSendController` with what the core library has got: `sending` is what `send_rx` gives, each
-- file with the bytes that have been put into its channel. `status_rx` and `error_rx` are what
-- these will still give.
pub record RtcSendController : Type 0 where
  pub status_rx : List RtcStatus
  pub selected_rx : Option (Option (List Text))
  pub error_rx : List RtcFileError
  pub pin_tx : PinSender
  pub sending : List RtcFile

-- What `send_offer` returns, for what the core library will send.
unfoldable pub offered : List RtcStatus → Option (List Text) → List RtcFileError → RtcSendController
offered statuses selected errors = record {
  status_rx = statuses;
  selected_rx = some selected;
  error_rx = errors;
  pin_tx = PinSender.empty;
  sending = [];
}

-- Each of these two gives what the sink gets.
unfoldable pub listen_status : RtcSendController → List (Sunk RtcStatus) × RtcSendController
listen_status r = (map add r.status_rx, record r { status_rx = [] })

unfoldable pub listen_error : RtcSendController → List (Sunk RtcFileError) × RtcSendController
listen_error r = (map add r.error_rx, record r { error_rx = [] })

abbrev pub awaited : Option (Option (List Text)) → Result (List Text)
awaited none = err (ascii "Selected files already received")
awaited (some none) = err (ascii "Selected files channel closed")
awaited (some (some selected)) = ok selected

unfoldable pub listen_selected_files : RtcSendController → Result (List Text) × RtcSendController
listen_selected_files r = (awaited r.selected_rx, record r { selected_rx = none })

unfoldable pub send_pin : Bool → Text → RtcSendController → Result (Unit {0}) × RtcSendController
send_pin alive pin r =
    let sent = PinSender.send_pin alive pin r.pin_tx in (sent.0, record r { pin_tx = sent.1 })

-- An `RTCFileSender` is the number of the file in `sending`.
unfoldable pub send_file : Bool → Text → RtcSendController → Result ℕ × RtcSendController
send_file alive file_id r =
    if alive
    then (
      ok (length r.sending),
      record r { sending = r.sending ++ (record { file_id = file_id; binary_rx = [] }) ∷ [] },
    )
    else (err (ascii "channel closed"), r)

-- The bytes go into the channel of one file.
unfoldable pub put : ℕ → Bytes → List RtcFile → List RtcFile
put n bytes [] = []
put zero bytes (file ∷ files) = record file { binary_rx = file.binary_rx ++ bytes ∷ [] } ∷ files
put (suc n) bytes (file ∷ files) = file ∷ put n bytes files

-- `RTCFileSender::send`. `alive` says whether the file is still read.
unfoldable pub send : Bool → ℕ → Bytes → RtcSendController → Result (Unit {0}) × RtcSendController
unfolding put
send alive sender bytes r =
    if alive
    then (ok tt, record r { sending = put sender bytes r.sending })
    else (err (ascii "channel closed"), r)
