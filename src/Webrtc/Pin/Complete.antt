-- ===== src/Webrtc/Pin/Complete.antt =====
-- When `verify_pin` lets the other peer in.
use localsend_uyava.Prelude.{
  ℕ, Text-Eq, text_eq_iff, zero, suc, ◌+◌, ◌<◌, ◌%◌, ◌^◌, ◌≡◌, refl, sym, ap, ◌∙◌, inl, inr, ◌⊎◌,
  List, [], ◌∷◌, ◌++◌, some, Bool, true, false, ◌||◌, Text, ltb, leb, leb_of_lt, ◌==◌, continue, ok,
  arith, Bool-cases,
}
use localsend_uyava.Webrtc.Chunks.{DataChannelMessage}
use localsend_uyava.Webrtc.Messages.{Json, PinConfig, RtcStatus}
use localsend_uyava.Webrtc.Io.{Effect, status, Io, Task, ◌>>=◌, recv, perform}
use localsend_uyava.Webrtc.Pin.{
  VerifyPinResult, pin_required, or_fail, receive_pin, notify, verify_from, verify_pin,
}

-- Within `n` messages one carries the PIN, and those before it carry PINs too.
abbrev pub EntersInTime : Json → Text → ℕ → List DataChannelMessage → Type 0
EntersInTime json pin zero msgs = ⊥
EntersInTime json pin (suc n) [] = ⊥
EntersInTime json pin (suc n) (msg ∷ msgs) =
    (p : Text) × (json.pin.from_slice msg.contents ≡ some (record { pin = p }))
    × ((p ≡ pin) ⊎ EntersInTime json pin n msgs)

turn {ℓ} : {P : Type ℓ} {xs : Text} → (xs ≡ []) ⊎ P → ([] ≡ xs) ⊎ P
turn (inl e) = inl (sym e)
turn (inr p) = inr p

-- A task that sends on a channel that works.
abbrev pub Works : Task (Unit {0}) → Type 0
Works m = (io : Io) → (io' : Io) × (m io ≡ (ok tt, io')) × (io'.incoming ≡ io.incoming)

receive_pin-cons :
    (json : Json) (io : Io) (msg : DataChannelMessage) (ms : List DataChannelMessage) (p : Text)
    → io.incoming ≡ msg ∷ ms
    → json.pin.from_slice msg.contents ≡ some (record { pin = p })
    → receive_pin json io ≡ (ok p, record io { incoming = ms })
unfolding receive_pin recv or_fail
receive_pin-cons json io msg ms p e f = ground (arith, e, f)

module _ (json : Json) (alive : List Effect → Effect → Bool) (config : PinConfig)
    (send_result : VerifyPinResult → Task (Unit {0}))
    (works : (r : VerifyPinResult) → Works (send_result r)) where
  notify-Works : (b : Bool) → Works (notify json alive config send_result b)
  unfolding notify
  notify-Works false io = (io, refl, refl)
  notify-Works true io = works pin_required io

  round_complete :
      (b : Bool) (f : Text → Task (Unit {0})) (io : Io) (msg : DataChannelMessage)
      (ms : List DataChannelMessage) (p : Text)
      → io.incoming ≡ msg ∷ ms
      → json.pin.from_slice msg.contents ≡ some (record { pin = p })
      → ((io2 : Io) → io2.incoming ≡ ms → (io' : Io) × (f p io2 ≡ (ok tt, io')))
      → (io' : Io) × ((notify json alive config send_result b >>= λ _. receive_pin json >>= f) io
          ≡ (ok tt, io'))
  round_complete b f io msg ms p e parsed go =
      let (io1, told, same) = notify-Works b io in
      let (io', done) = go (record io1 { incoming = ms }) refl in
      (
        io',
        ap (λ x. continue x (λ _. receive_pin json >>= f)) told
            ∙ ap (λ x. continue x f) (receive_pin-cons json io1 msg ms p (same ∙ e) parsed)
            ∙ done,
      )

  verify_from_complete :
      (n fuel try : ℕ) (notice : Bool) (current : Text) (io : Io) (ms : List DataChannelMessage)
      → config.max_tries < 2 ^ 8
      → try + n ≡ config.max_tries
      → n < fuel
      → io.incoming ≡ ms
      → (current ≡ config.pin) ⊎ EntersInTime json config.pin n ms
      → (io' : Io) × (verify_from json alive config send_result fuel notice current try io
          ≡ (ok tt, io'))
  unfolding verify_from
  verify_from_complete n zero try notice current io ms small left lt e g = absurd (omega arith)
  verify_from_complete n (suc fuel) try notice current io ms small left lt e (inl g) =
      (io, rw ((text_eq_iff current config.pin).1 g))
  verify_from_complete zero (suc fuel) try notice current io ms small left lt e (inr g) = absurd g
  verify_from_complete (suc n) (suc fuel) try notice current io [] small left lt e (inr g) =
      absurd g
  verify_from_complete (suc n) (suc fuel) try notice current io (m ∷ ms) small left lt e
        (inr (p, parsed, g)) =
      elim (Bool-cases (current == config.pin)) [
        | inl q ↦ (io, rw q)
        | inr q ↦
            let more : leb config.max_tries try ≡ false =
              leb_of_lt config.max_tries try (omega arith) in
            let (io', done) =
              round_complete (notice || ltb 0 try)
                (λ p'. verify_from json alive config send_result fuel false p' ((try + 1) % 2 ^ 8))
                io m ms p e parsed
                (λ io2 same.
                  verify_from_complete n fuel ((try + 1) % 2 ^ 8) false p io2 ms small (omega arith)
                    (omega arith) same g) in
            (io', rw (q, more) done)
      ]

  -- If `max_tries` is a u8, then on channels that work, also for the results, `verify_pin`
  -- returns normally if the configured PIN is empty, or if the PIN is in one of the first
  -- `max_tries` messages and those before that one are PIN messages too.
  pub verify_pin_complete :
      (notice : Bool) (io : Io)
      → config.max_tries < 2 ^ 8
      → ((log : List Effect) (e : Effect) → alive log e ≡ true)
      → (config.pin ≡ []) ⊎ EntersInTime json config.pin config.max_tries io.incoming
      → (io' : Io) × (verify_pin json alive config send_result notice io ≡ (ok tt, io'))
  unfolding verify_pin perform
  verify_pin_complete notice io small lives entered =
      let asked : Io = record io { log = io.log ++ status RtcStatus.pin_required ∷ [] } in
      let (io', done) =
        verify_from_complete config.max_tries 257 0 notice [] asked io.incoming small (omega arith)
          (omega arith) refl (turn entered) in
      (io', rw (lives io.log (status RtcStatus.pin_required)) done)
