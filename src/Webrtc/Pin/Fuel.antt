-- ===== src/Webrtc/Pin/Fuel.antt =====
-- The fuel of the loop of `verify_pin`.
use mathlib.Core.Path.{fun_ext}
use localsend_uyava.Prelude.{
  ℕ, List, Text-Eq, zero, suc, ◌+◌, ◌<◌, ◌%◌, ◌^◌, ◌≡◌, refl, ap, [], Bool, true, false, ◌||◌, Text,
  ltb, leb, ◌==◌, if◌then◌else◌, arith,
}
use localsend_uyava.Webrtc.Messages.{Json, PinConfig}
use localsend_uyava.Webrtc.Io.{Effect, Task, ◌>>=◌, pure}
use localsend_uyava.Webrtc.Pin.{VerifyPinResult, receive_pin, give_up, notify, verify_from}

leb_self : (a b : ℕ) → a ≡ b → leb b a ≡ true
leb_self a b e = ground arith

-- The tries left are fuel enough.
verify_from_enough :
    (json : Json) (alive : List Effect → Effect → Bool) (config : PinConfig)
    (send_result : VerifyPinResult → Task (Unit {0})) (n f g try : ℕ) (notice : Bool)
    (current : Text)
    → config.max_tries < 2 ^ 8
    → try + n ≡ config.max_tries
    → n < f
    → n < g
    → verify_from json alive config send_result f notice current try
      ≡ verify_from json alive config send_result g notice current try
unfolding verify_from
verify_from_enough json alive config send n zero g try notice current small left h k =
    absurd (omega arith)
verify_from_enough json alive config send n (suc f) zero try notice current small left h k =
    absurd (omega arith)
verify_from_enough json alive config send zero (suc f) (suc g) try notice current small left h k =
    rw (leb_self try config.max_tries (omega arith)) refl
verify_from_enough json alive config send (suc n) (suc f) (suc g) try notice current small left h
      k =
    ap
      (λ (next : Text → Task (Unit {0})).
        if current == config.pin
        then pure tt
        else if leb config.max_tries try
        then give_up json alive config send
        else (notify json alive config send (notice || ltb 0 try) >>= λ _.
            receive_pin json >>= next))
      (fun_ext λ p.
        verify_from_enough json alive config send n f g ((try + 1) % 2 ^ 8) false p small
          (omega arith) (omega arith) (omega arith))

-- If `max_tries` is a u8, the loop of `verify_pin` ends within `max_tries` rounds and one: with more
-- fuel than that, it does the same.
pub verify_from_fuel :
    (json : Json) (alive : List Effect → Effect → Bool) (config : PinConfig)
    (send_result : VerifyPinResult → Task (Unit {0})) (more : ℕ) (notice : Bool)
    → config.max_tries < 2 ^ 8
    → verify_from json alive config send_result (suc config.max_tries + more) notice [] 0
      ≡ verify_from json alive config send_result (suc config.max_tries) notice [] 0
verify_from_fuel json alive config send more notice small =
    verify_from_enough json alive config send config.max_tries (suc config.max_tries + more)
      (suc config.max_tries) 0 notice [] small (omega arith) (omega arith) (omega arith)
