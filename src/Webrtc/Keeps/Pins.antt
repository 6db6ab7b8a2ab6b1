-- ===== src/Webrtc/Keeps/Pins.antt =====
-- The PIN exchange and texts in chunks: they announce nothing, and a PIN that is let in was sent.
use mathlib.Core.Path.{subst, fun_ext}
use localsend_uyava.Prelude.{
  ℕ, zero, suc, Text-Eq, text_eq_iff, ◌+◌, ◌%◌, ◌^◌, ◌≡◌, refl, sym, inl, inr, ◌⊎◌, List, [], ◌∷◌,
  some, Bool, true, false, ◌||◌, ltb, leb, Text, Bytes, ascii, ◌==◌, All, arith, Bool-cases, ◌++◌,
}
use localsend_uyava.Webrtc.Chunks.{
  DataChannelMessage, delimiter, receive_from, receive_string_from_chunks, process_in_chunks,
  send_string_in_chunks,
}
use localsend_uyava.Webrtc.Chunks.Split.{send_each, process_in_chunks-send_each}
use localsend_uyava.Webrtc.Messages.{Json, PinConfig, RtcStatus}
use localsend_uyava.Webrtc.Io.{
  Effect, status, message, file_list, selection, file, binary, Task, attempt, recv, perform,
}
use localsend_uyava.Webrtc.Pin.{
  VerifyPinResult, pin_required, too_many_attempts, or_fail, receive_chunks, text_message,
  receive_pin, give_up, notify, verify_from, verify_pin,
}
use localsend_uyava.Webrtc.Transfer.{send_chunk}
use localsend_uyava.Webrtc.Handshake.{send_text, send_whole}
use localsend_uyava.Webrtc.Keeps.{
  Keeps, Any, Received, Keeps-bind, Keeps-pure, Keeps-fail, Keeps-or_fail, Keeps-perform, Keeps-if,
  Keeps-recv,
}

-- Effects other than those by which the caller learns that the other peer was let in, or of files.
abbrev pub IsQuiet : Effect → Type 0
IsQuiet (status RtcStatus.connected) = ⊥
IsQuiet (file_list files) = ⊥
IsQuiet (selection ids) = ⊥
IsQuiet (file id) = ⊥
IsQuiet (binary id b) = ⊥
IsQuiet _ = Unit

pub token_eq : (a b : Text) → (a == b) ≡ true → a ≡ b
token_eq a b e = (text_eq_iff a b).0 e

module _ (Q : Effect → Type 0) (W : DataChannelMessage → Type 0)
    (quiet : (e : Effect) → IsQuiet e → Q e) (json : Json)
    (alive : List Effect → Effect → Bool) where
  pub Keeps-send_text : (bytes : Bytes) → Keeps Q W Any (send_text json alive bytes)
  unfolding send_text
  Keeps-send_text bytes =
      Keeps-perform Q W alive (text_message bytes) (quiet (text_message bytes) tt)

  Keeps-send_each : (cs : List Bytes) → Keeps Q W Any (send_each (send_chunk json alive) cs)
  unfolding send_each send_chunk
  Keeps-send_each [] = Keeps-pure Q W Any tt tt
  Keeps-send_each (c ∷ cs) =
      Keeps-bind Q W Any Any (send_chunk json alive c) (λ u. send_each (send_chunk json alive) cs)
        (Keeps-perform Q W alive (message (record { is_string = false; contents = c }))
          (quiet (message (record { is_string = false; contents = c })) tt))
        (λ u r. Keeps-send_each cs)

  pub Keeps-send_whole : (bytes : Bytes) → Keeps Q W Any (send_whole json alive bytes)
  unfolding send_whole send_string_in_chunks
  Keeps-send_whole bytes =
      Keeps-bind Q W Any Any (process_in_chunks (send_chunk json alive) (bytes ∷ []))
        (λ u. perform alive (message delimiter))
        (subst (Keeps Q W Any)
          (sym (fun_ext λ io. process_in_chunks-send_each (send_chunk json alive) (bytes ∷ []) io))
          (Keeps-send_each _))
        (λ u r. Keeps-perform Q W alive (message delimiter) (quiet (message delimiter) tt))

  receive_from-All :
      (buffer : Bytes) (ms : List DataChannelMessage) → All W ms → All W (receive_from buffer ms).1
  unfolding receive_from
  receive_from-All buffer [] w = tt
  receive_from-All buffer (m ∷ ms) (p, w) = elim (Bool-cases m.is_string) [
    | inl e ↦ ground (arith, e, w)
    | inr e ↦ ground (arith, e, receive_from-All (buffer ++ m.contents) ms w)
  ]

  pub Keeps-receive_chunks : Keeps Q W Any receive_chunks
  unfolding receive_chunks receive_string_from_chunks
  Keeps-receive_chunks io h w = (h, receive_from-All [] io.incoming w, tt)

  -- A message brought the PIN.
  abbrev pub HasPin : Text → Type 0
  HasPin pin =
      (msg : DataChannelMessage) × W msg
      × (json.pin.from_slice msg.contents ≡ some (record { pin = pin }))

  abbrev pub IsGiven : Text → Type 0
  IsGiven pin = (pin ≡ []) ⊎ HasPin pin

  Keeps-receive_pin : Keeps Q W HasPin (receive_pin json)
  unfolding receive_pin
  Keeps-receive_pin = Keeps-bind Q W (Received Q W) HasPin recv _ (Keeps-recv Q W) λ o arrived.
      Keeps-bind Q W (λ msg. o ≡ some msg) HasPin (or_fail (ascii "Failed to receive pin") o) _
        (Keeps-or_fail Q W (ascii "Failed to receive pin") o)
        λ msg came.
          Keeps-bind Q W (λ r. json.pin.from_slice msg.contents ≡ some r) HasPin
            (or_fail (ascii "serde_json") (json.pin.from_slice msg.contents)) _
            (Keeps-or_fail Q W (ascii "serde_json") (json.pin.from_slice msg.contents))
            λ request parsed.
              Keeps-pure Q W HasPin request.pin (msg, subst (Received Q W) came arrived, parsed)

  module _ (config : PinConfig) (send_result : VerifyPinResult → Task (Unit {0}))
      (keeps : (r : VerifyPinResult) → Keeps Q W Any (send_result r)) where
    abbrev pub LetIn : Unit {0} → Type 0
    LetIn u = IsGiven config.pin

    Keeps-notify : (b : Bool) → Keeps Q W Any (notify json alive config send_result b)
    unfolding notify
    Keeps-notify false = Keeps-pure Q W Any tt tt
    Keeps-notify true = keeps pin_required

    Keeps-attempt : (m : Task (Unit {0})) → Keeps Q W Any m → Keeps Q W Any (attempt m)
    unfolding attempt
    Keeps-attempt m k io h w = ((k io h w).0, (k io h w).1, tt)

    Keeps-give_up : Keeps Q W LetIn (give_up json alive config send_result)
    unfolding give_up
    Keeps-give_up =
        Keeps-bind Q W Any LetIn (attempt (send_result too_many_attempts)) _
          (Keeps-attempt (send_result too_many_attempts) (keeps too_many_attempts))
          λ u r.
            Keeps-bind Q W Any LetIn (perform alive (status RtcStatus.too_many_attempts)) _
              (Keeps-perform Q W alive (status RtcStatus.too_many_attempts)
                (quiet (status RtcStatus.too_many_attempts) tt))
              λ u' r'. Keeps-fail Q W LetIn (ascii "Too many requests")

    Keeps-verify_from :
        (fuel : ℕ) (notice : Bool) (current : Text) (try : ℕ)
        → IsGiven current
        → Keeps Q W LetIn (verify_from json alive config send_result fuel notice current try)
    unfolding verify_from
    Keeps-verify_from zero notice current try g = Keeps-fail Q W LetIn (ascii "fuel")
    Keeps-verify_from (suc fuel) notice current try g =
        Keeps-if Q W LetIn (current == config.pin) _ _
          (λ e. Keeps-pure Q W LetIn tt (subst IsGiven (token_eq current config.pin e) g))
          (λ e.
            Keeps-if Q W LetIn (leb config.max_tries try) _ _ (λ f. Keeps-give_up)
              (λ f.
                Keeps-bind Q W Any LetIn
                  (notify json alive config send_result (notice || ltb 0 try)) _
                  (Keeps-notify (notice || ltb 0 try))
                  λ u r.
                    Keeps-bind Q W HasPin LetIn (receive_pin json) _ Keeps-receive_pin
                      λ p came. Keeps-verify_from fuel false p ((try + 1) % 2 ^ 8) (inr came)))

    pub Keeps-verify_pin :
        (notice : Bool) → Keeps Q W LetIn (verify_pin json alive config send_result notice)
    unfolding verify_pin
    Keeps-verify_pin notice =
        Keeps-bind Q W Any LetIn (perform alive (status RtcStatus.pin_required)) _
          (Keeps-perform Q W alive (status RtcStatus.pin_required)
            (quiet (status RtcStatus.pin_required) tt))
          λ u r. Keeps-verify_from 257 notice [] 0 (inl refl)
