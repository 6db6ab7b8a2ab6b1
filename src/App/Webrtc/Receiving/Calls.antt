-- ===== src/App/Webrtc/Receiving/Calls.antt =====
-- Calls of a controller in any order.
use localsend_uyava.Prelude.{List, [], ◌∷◌, Bool, Text, Result}
use localsend_uyava.Model.{FileDto}
use localsend_uyava.Webrtc.Messages.{RtcStatus, RtcFileError, RtcSendFileResponse}
use localsend_uyava.App.Webrtc.{Sunk}
use localsend_uyava.App.Webrtc.PinSender
use localsend_uyava.App.Webrtc.Receiving
use localsend_uyava.App.Webrtc.Receiving.{RtcReceiveController, RtcFileReceiver}

-- A call, or a request of the core library for a PIN.
pub data Call : Type 0 where
  pin_requested listen_status listen_error listen_receiving listen_files : Call
  send_pin : Bool → Text → Call
  send_selection : Bool → List Text → Call
  decline : Bool → Call
  send_file_status : Bool → RtcSendFileResponse → Call

-- What each call gave to the application.
pub data Got : Type 0 where
  statuses : List (Sunk RtcStatus) → Got
  errors : List (Sunk RtcFileError) → Got
  receiving : List (Sunk RtcFileReceiver) → Got
  files : Result (List FileDto) → Got
  done : Result (Unit {0}) → Got
  nothing : Got

abbrev pub step : Call → RtcReceiveController → Got × RtcReceiveController
step pin_requested r = (nothing, record r { pin_tx = PinSender.receive r.pin_tx })
step listen_status r = let out = Receiving.listen_status r in (statuses out.0, out.1)
step listen_error r = let out = Receiving.listen_error r in (errors out.0, out.1)
step listen_receiving r = let out = Receiving.listen_receiving r in (receiving out.0, out.1)
step listen_files r = let out = Receiving.listen_files r in (files out.0, out.1)
step (send_pin alive pin) r = let out = Receiving.send_pin alive pin r in (done out.0, out.1)
step (send_selection alive selection) r =
    let out = Receiving.send_selection alive selection r in (done out.0, out.1)
step (decline alive) r = let out = Receiving.decline alive r in (done out.0, out.1)
step (send_file_status alive response) r =
    let out = Receiving.send_file_status alive response r in (done out.0, out.1)

abbrev pub run : List Call → RtcReceiveController → List Got × RtcReceiveController
run [] r = ([], r)
run (call ∷ calls) r =
    let first = step call r in let rest = run calls first.1 in (first.0 ∷ rest.0, rest.1)
