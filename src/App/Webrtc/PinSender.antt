-- ===== src/App/Webrtc/PinSender.antt =====
-- app/rust/src/api/webrtc.rs: the place for the sender of a PIN, which both controllers have, with
-- the task that fills it.
pub mod Answers
use localsend_uyava.Prelude.{
  ℕ, ◌+◌, List, [], ◌∷◌, ◌++◌, Option, none, some, Bool, true, false, Text, ascii, Result, ok, err,
}

-- `pin_tx` holds the sender for a request of the core library, by the number of the request;
-- `requests` counts the requests, and `sent` has the PINs that have reached a request.
pub record PinSender : Type 0 where
  pub pin_tx : Option ℕ
  pub requests : ℕ
  pub sent : List (ℕ × Text)

abbrev pub empty : PinSender
empty = record { pin_tx = none; requests = 0; sent = [] }

-- One round of the task: the sender of the last request replaces the one that is there.
unfoldable pub receive : PinSender → PinSender
receive p = record p { pin_tx = some p.requests; requests = p.requests + 1 }

abbrev pub take_with : Bool → Text → Option ℕ → PinSender → Result (Unit {0}) × PinSender
take_with alive pin none p = (err (ascii "Pin already sent"), p)
take_with true pin (some request) p =
    (ok tt, record p { pin_tx = none; sent = p.sent ++ (request, pin) ∷ [] })
take_with false pin (some request) p =
    (err (ascii "Pin channel closed"), record p { pin_tx = none })

-- `alive` says whether the core library still waits for the PIN.
unfoldable pub send_pin : Bool → Text → PinSender → Result (Unit {0}) × PinSender
send_pin alive pin p = take_with alive pin p.pin_tx p
