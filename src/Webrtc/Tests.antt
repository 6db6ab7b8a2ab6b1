-- ===== src/Webrtc/Tests.antt =====
-- Small exchanges, on which the theorems about the data channel are tried.
pub mod Toy
mod Session
mod Pins
use localsend_uyava.Webrtc.Tests.Toy.{toy}
use localsend_uyava.Prelude.{
  All, Text-Eq, ◌≡◌, refl, List, [], ◌∷◌, ◌++◌, map, flatten, none, true, Text, ascii, ok, arith,
  inl, inr, ◌⊎◌,
}
use localsend_uyava.Model.{FileDto}
use localsend_uyava.Webrtc.Chunks.{
  DataChannelMessage, process_in_chunks, send_string_in_chunks, receive_string_from_chunks,
  delimiter,
}
use localsend_uyava.Webrtc.Chunks.Split.{chunks_of, send_each, process_in_chunks-send_each}
use localsend_uyava.Webrtc.Chunks.RoundTrip.{send, receive_string_from_chunks-send_string_in_chunks}
use localsend_uyava.Webrtc.Messages.{PinConfig}
use localsend_uyava.Webrtc.Io.{Effect, Io, Task}
use localsend_uyava.Webrtc.Pin.{verify_from, VerifyPinResult, verify_pin}
use localsend_uyava.Webrtc.Pin.Verify.{Enters, KeepsIncoming, verify_pin_sound}
use localsend_uyava.Webrtc.Pin.Fuel.{verify_from_fuel}
use localsend_uyava.Webrtc.Pin.Complete.{EntersInTime, Works, verify_pin_complete}
use localsend_uyava.Webrtc.Transfer.{RtcFile, receive_files}
use localsend_uyava.Webrtc.Transfer.Sender.{works, files_messages}
use localsend_uyava.Webrtc.Transfer.Safety.{IsAllowed, receive_files_safe}

abbrev pin_config : PinConfig
pin_config = record { pin = ascii "12"; max_tries = 3 }

abbrev silent : VerifyPinResult → Task (Unit {0})
silent r io = (ok tt, io)

silent-KeepsIncoming : (r : VerifyPinResult) → KeepsIncoming (silent r)
silent-KeepsIncoming r io = refl

silent-Works : (r : VerifyPinResult) → Works (silent r)
silent-Works r io = (io, refl, refl)

abbrev io_of : List DataChannelMessage → Io
io_of msgs = record { incoming = msgs; pins = []; log = [] }

abbrev said : Text → DataChannelMessage
said t = record { is_string = true; contents = t }

-- The second try is right.
abbrev tries : List DataChannelMessage
tries = map (λ t. said (toy.pin.to_string (record { pin = t }))) (ascii "9" ∷ ascii "12" ∷ [])

tries-EntersInTime : EntersInTime toy (ascii "12") 3 tries
tries-EntersInTime = (ascii "9", refl, inr (ascii "12", refl, inl refl))

always : (log : List Effect) (e : Effect) → works log e ≡ true
always log e = refl

verify_from_fuel_example :
    verify_from toy works pin_config silent 9 true [] 0
    ≡ verify_from toy works pin_config silent 4 true [] 0
verify_from_fuel_example = verify_from_fuel toy works pin_config silent 5 true (omega arith)

verify_pin_complete_example :
    (io' : Io) × (verify_pin toy works pin_config silent true (io_of tries) ≡ (ok tt, io'))
verify_pin_complete_example =
    verify_pin_complete toy works pin_config silent silent-Works true (io_of tries) (omega arith)
      always (inr tries-EntersInTime)

let_in : (io' : Io) × (verify_pin toy works pin_config silent true (io_of tries) ≡ (ok tt, io'))
let_in =
    verify_pin_complete toy works pin_config silent silent-Works true (io_of tries) (omega arith)
      always (inr tries-EntersInTime)

verify_pin_sound_example : (pin_config.pin ≡ []) ⊎ Enters toy pin_config.pin 3 tries
verify_pin_sound_example =
    verify_pin_sound toy works pin_config silent silent-KeepsIncoming true (io_of tries) let_in.0
      (omega arith) let_in.1

abbrev file_f : RtcFile
file_f = record { file_id = ascii "f"; binary_rx = (1 ∷ 2 ∷ []) ∷ (3 ∷ []) ∷ [] }

abbrev file_g : RtcFile
file_g = record { file_id = ascii "g"; binary_rx = [] }

abbrev tokens : List (Text × Text)
tokens = (ascii "f", ascii "t") ∷ (ascii "g", ascii "u") ∷ []

abbrev dto : Text → FileDto
dto id = record {
  id = id;
  file_name = id;
  size = 3;
  file_type = ascii "x";
  sha256 = none;
  preview = none;
  metadata = none;
}

abbrev file_list : List FileDto
file_list = dto (ascii "f") ∷ dto (ascii "g") ∷ []

receive_files_safe_example :
    All
      (IsAllowed toy tokens (files_messages toy tokens (file_f ∷ file_g ∷ [])))
      (receive_files toy works file_list tokens none []
        (files_messages toy tokens (file_f ∷ file_g ∷ []))
        (io_of [])).1.log
receive_files_safe_example =
    receive_files_safe toy works file_list tokens (files_messages toy tokens (file_f ∷ file_g ∷ []))
      [] (io_of []) refl

process_in_chunks_example :
    process_in_chunks send ((1 ∷ []) ∷ (2 ∷ []) ∷ []) []
    ≡ send_each send (chunks_of (1 ∷ 2 ∷ [])) []
unfolding flatten
process_in_chunks_example = process_in_chunks-send_each send ((1 ∷ []) ∷ (2 ∷ []) ∷ []) []

receive_string_example :
    (sent : List DataChannelMessage) × (send_string_in_chunks send (ascii "text") []
      ≡ (ok tt, sent))
    × (receive_string_from_chunks (sent ++ delimiter ∷ []) ≡ (ascii "text", []))
receive_string_example = receive_string_from_chunks-send_string_in_chunks (ascii "text") [] []
