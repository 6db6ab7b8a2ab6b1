-- ===== src/Webrtc/Pin/Verify.antt =====
-- What `verify_pin` asks of the other peer.
use mathlib.Core.Path.{subst}
use localsend_uyava.Prelude.{
  ℕ, Text-Eq, text_eq_iff, zero, suc, ◌+◌, ◌<◌, ◌%◌, ◌^◌, ◌≡◌, refl, sym, ap, ◌∙◌, inl, inr, ◌⊎◌,
  List, [], ◌∷◌, some, Bool, true, false, ◌||◌, Text, ltb, leb, leb→le, ◌==◌, Result,
  continue-eq-ok, ok, arith, Bool-cases,
}
use localsend_uyava.Webrtc.Chunks.{DataChannelMessage}
use localsend_uyava.Webrtc.Messages.{Json, PinConfig, RtcStatus}
use localsend_uyava.Webrtc.Io.{
  Effect, status, Io, Task, ◌>>=◌, attempt, recv, perform, perform-incoming,
}
use localsend_uyava.Webrtc.Pin.{
  VerifyPinResult, pin_required, or_fail, receive_pin, give_up, notify, verify_from, verify_pin,
}

-- One of the first `n` messages carries the PIN.
abbrev pub Enters : Json → Text → ℕ → List DataChannelMessage → Type 0
Enters json pin zero msgs = ⊥
Enters json pin (suc n) [] = ⊥
Enters json pin (suc n) (msg ∷ msgs) =
    (json.pin.from_slice msg.contents ≡ some (record { pin = pin })) ⊎ Enters json pin n msgs

-- What `verify_pin` is given to send its results with leaves the incoming messages alone.
abbrev pub KeepsIncoming : {A : Type 0} → Task A → Type 0
KeepsIncoming m = (io : Io) → (m io).1.incoming ≡ io.incoming

receive_pin-eq-ok :
    (json : Json) (io io' : Io) (p : Text)
    → receive_pin json io ≡ (ok p, io')
    → (msg : DataChannelMessage) × (io.incoming ≡ msg ∷ io'.incoming)
      × (json.pin.from_slice msg.contents ≡ some (record { pin = p }))
unfolding receive_pin recv or_fail
receive_pin-eq-ok json io io' p h = go io.incoming refl h
  where
    go :
        (ms : List DataChannelMessage)
        → io.incoming ≡ ms
        → receive_pin json io ≡ (ok p, io')
        → (msg : DataChannelMessage) × (io.incoming ≡ msg ∷ io'.incoming)
          × (json.pin.from_slice msg.contents ≡ some (record { pin = p }))
    go [] e h = ground (arith, e, h)
    go (m ∷ ms) e h = (m, ground (arith, e, h), ground (arith, e, h))

Enters-weaken :
    (json : Json) (pin : Text) (n : ℕ) (ms : List DataChannelMessage)
    → Enters json pin n ms
    → Enters json pin (suc n) ms
Enters-weaken json pin (suc n) (m ∷ ms) (inl e) = inl e
Enters-weaken json pin (suc n) (m ∷ ms) (inr e) = inr (Enters-weaken json pin n ms e)
Enters-weaken json pin (suc n) [] e = absurd e
Enters-weaken json pin zero ms e = absurd e

Enters-cons :
    (json : Json) (pin p : Text) (n : ℕ) (msg : DataChannelMessage)
    (ms rest : List DataChannelMessage)
    → ms ≡ msg ∷ rest
    → json.pin.from_slice msg.contents ≡ some (record { pin = p })
    → (p ≡ pin) ⊎ Enters json pin n rest
    → Enters json pin (suc n) ms
Enters-cons json pin p n msg [] rest e f g = cc
Enters-cons json pin p n msg (m ∷ ms) rest e f (inl g) = inl (ground (arith, e, f, g))
Enters-cons json pin p n msg (m ∷ ms) rest e f (inr g) =
    inr (subst (Enters json pin n) (ground (arith, e)) g)

module _ (json : Json) (alive : List Effect → Effect → Bool) (config : PinConfig)
    (send_result : VerifyPinResult → Task (Unit {0}))
    (keeps : (r : VerifyPinResult) → KeepsIncoming (send_result r)) where
  notify-KeepsIncoming : (b : Bool) → KeepsIncoming (notify json alive config send_result b)
  unfolding notify
  notify-KeepsIncoming false io = refl
  notify-KeepsIncoming true io = keeps pin_required io

  give_up-ne-ok : (io io' : Io) → (give_up json alive config send_result io ≡ (ok tt, io')) → ⊥
  unfolding give_up perform attempt
  give_up-ne-ok io io' h = ground (arith, h)

  verify_round :
      (b : Bool) (f : Text → Task (Unit {0})) (io io' : Io)
      → (notify json alive config send_result b >>= λ _. receive_pin json >>= f) io ≡ (ok tt, io')
      → (p : Text) × (io2 : Io) × (msg : DataChannelMessage) × (io.incoming ≡ msg ∷ io2.incoming)
        × (json.pin.from_slice msg.contents ≡ some (record { pin = p }))
        × (f p io2 ≡ (ok tt, io'))
  verify_round b f io io' h =
      let (u, io1, told, h1) =
        continue-eq-ok (notify json alive config send_result b io) _ tt io' h in
      let (p, io2, got, h2) = continue-eq-ok (receive_pin json io1) _ tt io' h1 in
      let (msg, q, parsed) = receive_pin-eq-ok json io1 io2 p got in
      (
        p,
        io2,
        msg,
        sym (notify-KeepsIncoming b io) ∙ ap (λ (x : Result Unit × Io). x.1.incoming) told ∙ q,
        parsed,
        h2,
      )

  -- With `n` tries left.
  verify_from_sound :
      (n fuel try : ℕ) (notice : Bool) (current : Text) (io io' : Io)
      → config.max_tries < 2 ^ 8
      → try + n ≡ config.max_tries
      → verify_from json alive config send_result fuel notice current try io ≡ (ok tt, io')
      → (current ≡ config.pin) ⊎ Enters json config.pin n io.incoming
  unfolding verify_from
  verify_from_sound n zero try notice current io io' small left h = cc
  verify_from_sound zero (suc fuel) try notice current io io' small left h =
      elim (Bool-cases (current == config.pin)) [
        | inl e ↦ inl ((text_eq_iff current config.pin).0 e)
        | inr e ↦ absurd (give_up-ne-ok io io' (ground (arith, e, h)))
      ]
  verify_from_sound (suc n) (suc fuel) try notice current io io' small left h =
      elim (Bool-cases (current == config.pin)) [
        | inl e ↦ inl ((text_eq_iff current config.pin).0 e)
        | inr e ↦ elim (Bool-cases (leb config.max_tries try)) [
          | inl f ↦ absurd (omega (arith, leb→le config.max_tries try f))
          | inr f ↦
              let (p, io2, msg, q, parsed, k) =
                verify_round (notice || ltb 0 try) _ io io' (rw (e, f) at h) in
              inr (
                Enters-cons json config.pin p n msg io.incoming io2.incoming q parsed (
                  verify_from_sound n fuel ((try + 1) % 2 ^ 8) false p io2 io' small (omega arith)
                    k))
        ]
      ]

  -- If `max_tries` is a u8, and sending a result takes no incoming message, `verify_pin` returns
  -- normally only if the configured PIN is empty, or if one of the first `max_tries` messages
  -- that it receives carries that PIN.
  pub verify_pin_sound :
      (notice : Bool) (io io' : Io)
      → config.max_tries < 2 ^ 8
      → verify_pin json alive config send_result notice io ≡ (ok tt, io')
      → (config.pin ≡ []) ⊎ Enters json config.pin config.max_tries io.incoming
  unfolding verify_pin
  verify_pin_sound notice io io' small h =
      let (u, io1, told, k) =
        continue-eq-ok (perform alive (status RtcStatus.pin_required) io) _ tt io' h in
      let same = perform-incoming alive (status RtcStatus.pin_required) io io1 u told in
      started io.incoming io1.incoming same
        (verify_from_sound config.max_tries 257 0 notice [] io1 io' small (omega arith) k)
    where
      started :
          (ms ns : List DataChannelMessage)
          → ns ≡ ms
          → ([] ≡ config.pin) ⊎ Enters json config.pin config.max_tries ns
          → (config.pin ≡ []) ⊎ Enters json config.pin config.max_tries ms
      started ms ns e (inl f) = inl (sym f)
      started ms ns e (inr f) = inr (subst (Enters json config.pin config.max_tries) e f)
