-- ===== src/App/Webrtc/Receiving/File.antt =====
-- app/rust/src/api/webrtc.rs: `RTCFileReceiver`, the bytes of one file.
use localsend_uyava.Prelude.{
  ◌≡◌, refl, ap, List, [], map, flatten, Option, none, some, Bytes, Text, ascii, Result, ok, err,
}
use localsend_uyava.Webrtc.Transfer.{RtcFile}
use localsend_uyava.App.Buffer.{buffer_receiver}
use localsend_uyava.App.Buffer.Joined.{push, AreLarge, buffer_receiver_lem}
use localsend_uyava.App.Webrtc.{Sunk, add}
use localsend_uyava.App.Webrtc.Receiving.{RtcFileReceiver, receiver_of}

unfoldable pub get_file_id : RtcFileReceiver → Text
get_file_id r = r.file_id

-- The buffering task sends to the loop of `receive`, which takes everything.
abbrev received : Option (List Bytes) → Result (Unit {0}) × List (Sunk Bytes)
received none = (err (ascii "File receiver listened to"), [])
received (some rx) = (ok tt, map add (buffer_receiver push rx []).1)

-- What the call returns and what the sink gets, and the receiver afterwards.
unfoldable pub receive : RtcFileReceiver → (Result (Unit {0}) × List (Sunk Bytes)) × RtcFileReceiver
receive r = (received r.binary_rx, record r { binary_rx = none })

-- A file that the core library announces has one reader: the first call of `receive` ends well and
-- gives its bytes to the sink, in order, in pieces none of which is empty or, but for the last,
-- smaller than a MiB; the next call is an error and gives nothing.
pub receive_once :
    (file : RtcFile)
    → let (first, after) = receive (receiver_of file) in
      let (second, last) = receive after in
      ((get_file_id after ≡ file.file_id)
        × (out : List Bytes) × (first ≡ (ok tt, map add out))
        × (flatten out ≡ flatten file.binary_rx)
        × AreLarge out
        × (second ≡ (err (ascii "File receiver listened to"), [])))
unfolding receive receiver_of get_file_id
receive_once file =
    let (out, done, joined, large) = buffer_receiver_lem file.binary_rx in
    (refl, out, ap (λ r. (ok tt, map add r.1)) done, joined, large, refl)
