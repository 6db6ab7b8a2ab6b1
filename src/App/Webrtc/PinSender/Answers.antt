-- ===== src/App/Webrtc/PinSender/Answers.antt =====
-- Which PIN answers which request.
use mathlib.Core.List.{append_assoc, append-nil}
use localsend_uyava.Prelude.{
  ℕ, ◌+◌, ◌≡◌, sym, ◌∙◌, List, [], ◌∷◌, ◌++◌, Option, none, some, Bool, true, false, Text,
}
use localsend_uyava.App.Webrtc.PinSender
use localsend_uyava.App.Webrtc.PinSender.{empty, receive, send_pin}

-- What happens to the place, in order.
pub data Call : Type 0 where
  requested : Call
  send : Bool → Text → Call

abbrev pub step : Call → PinSender.PinSender → PinSender.PinSender
step requested p = receive p
step (send alive pin) p = (send_pin alive pin p).1

abbrev pub run : List Call → PinSender.PinSender → PinSender.PinSender
run [] p = p
run (call ∷ calls) p = run calls (step call p)

-- The first attempt to send a PIN, before the next request, if it succeeds.
unfoldable pub first_pin : List Call → Option Text
first_pin [] = none
first_pin (requested ∷ calls) = none
first_pin (send true pin ∷ calls) = some pin
first_pin (send false pin ∷ calls) = none

-- The answer to each request, in order.
unfoldable pub answers : List Call → List (Option Text)
unfolding first_pin
answers [] = []
answers (requested ∷ calls) = first_pin calls ∷ answers calls
answers (send alive pin ∷ calls) = answers calls

abbrev pub answered : ℕ → Option Text → List (ℕ × Text)
answered n none = []
answered n (some pin) = (n, pin) ∷ []

-- Those that are there, with the numbers of their requests from `n` on.
unfoldable pub numbered : ℕ → List (Option Text) → List (ℕ × Text)
numbered n [] = []
numbered n (answer ∷ more) = answered n answer ++ numbered (n + 1) more

abbrev pending : Option ℕ → List Call → List (ℕ × Text)
pending none calls = []
pending (some n) calls = answered n (first_pin calls)

abbrev Answers : List Call → Type 0
Answers calls =
    (waiting : Option ℕ) (n : ℕ) (sent : List (ℕ × Text))
    → (run calls (record { pin_tx = waiting; requests = n; sent = sent })).sent
      ≡ sent ++ (pending waiting calls ++ numbered n (answers calls))

run-Answers : (calls : List Call) → Answers calls
unfolding first_pin answers numbered receive send_pin
run-Answers [] none n sent = sym (append-nil sent)
run-Answers [] (some k) n sent = sym (append-nil sent)
run-Answers (requested ∷ calls) none n sent = run-Answers calls (some n) (n + 1) sent
run-Answers (requested ∷ calls) (some k) n sent = run-Answers calls (some n) (n + 1) sent
run-Answers (send alive pin ∷ calls) none n sent = run-Answers calls none n sent
run-Answers (send true pin ∷ calls) (some k) n sent =
    run-Answers calls none n (sent ++ (k, pin) ∷ [])
    ∙ append_assoc sent ((k, pin) ∷ []) (numbered n (answers calls))
run-Answers (send false pin ∷ calls) (some k) n sent = run-Answers calls none n sent

-- In whatever order PINs are requested and sent: each request gets at most one PIN, the first that
-- is sent before the next request, if somebody still waits for it.
pub run-numbered : (calls : List Call) → (run calls empty).sent ≡ numbered 0 (answers calls)
run-numbered calls = run-Answers calls none 0 []
