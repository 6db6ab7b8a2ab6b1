-- ===== src/Signaling/Listener.antt =====
-- What the listener does with answers and with all messages.
use mathlib.Core.List.{append_assoc, append-nil}
use localsend_uyava.Prelude.{
  Text-Eq, text_eq_iff, ◌==◌, ◌≡◌, refl, sym, ap, ◌∙◌, List, [], ◌∷◌, ◌++◌, Option, none, some,
  Bool, true, Text, if◌then◌else◌, Bool-cases, Option-cases, inl, inr, arith,
}
use localsend_uyava.Prelude.Dict.{get, insert, remove, get-insert, get-remove}
use localsend_uyava.Signaling.{WsServerSdpMessage, WsServerMessage}
use localsend_uyava.Signaling.Client.{
  Managed, Event, started, received, added, add_callback, call, answer, forward, step, run,
}

-- All messages are taken.
abbrev pub always : List WsServerMessage → Bool
always messages = true

module _ {C : Type 0} where
  -- The answers to one session, and the callbacks that were called with them.
  abbrev pub of_session : Text → List (C × WsServerSdpMessage) → List (C × WsServerSdpMessage)
  of_session s [] = []
  of_session s ((callback, sdp) ∷ calls) =
      let rest = of_session s calls in if sdp.session_id == s then (callback, sdp) ∷ rest else rest

  abbrev pub called : Option C → WsServerSdpMessage → List (C × WsServerSdpMessage)
  called none sdp = []
  called (some callback) sdp = (callback, sdp) ∷ []

  -- What a session should see: one place for a callback, which a new one replaces, and which the
  -- next answer to the session empties.
  unfoldable pub calls_for : Text → Option C → List (Event C) → List (C × WsServerSdpMessage)
  calls_for s pending [] = []
  calls_for s pending (added t callback ∷ events) =
      calls_for s (if t == s then some callback else pending) events
  calls_for s pending (received (WsServerMessage.answer sdp) ∷ events) =
      let after = calls_for s none events in
      let others = calls_for s pending events in
      if sdp.session_id == s then called pending sdp ++ after else others
  calls_for s pending (received message ∷ events) = calls_for s pending events

  -- The messages among the events.
  abbrev pub messages : List (Event C) → List WsServerMessage
  messages [] = []
  messages (added t callback ∷ events) = messages events
  messages (received message ∷ events) = message ∷ messages events

  of_session-append :
      (s : Text) (calls more : List (C × WsServerSdpMessage))
      → of_session s (calls ++ more) ≡ of_session s calls ++ of_session s more
  of_session-append s [] more = refl
  of_session-append s ((callback, sdp) ∷ calls) more =
      ground (arith, of_session-append s calls more)

  -- The listener while it runs.
  abbrev pub running :
      List (Text × C) → List (C × WsServerSdpMessage) → List WsServerMessage → Managed C
  running on_answer calls forwarded = record {
    on_answer = on_answer;
    calls = calls;
    forwarded = forwarded;
    running = true;
  }

  -- The listener as the session sees it.
  abbrev Sees : Text → List (Event C) → Managed C → Type 0
  Sees s events m =
      of_session s (run always events m).calls
      ≡ of_session s m.calls ++ calls_for s (get s m.on_answer) events

  SeesAlways : Text → List (Event C) → Type 0
  SeesAlways s events =
      (callbacks : List (Text × C)) (calls : List (C × WsServerSdpMessage))
      (forwarded : List WsServerMessage)
      → Sees s events (running callbacks calls forwarded)

  -- Where no callback waits, an answer to the session is dropped.
  calls_for-absent :
      (s : Text) (sdp : WsServerSdpMessage) (events : List (Event C)) (callbacks : List (Text × C))
      → get sdp.session_id callbacks ≡ none
      → calls_for s (get s callbacks) events
        ≡ calls_for s (get s callbacks) (received (WsServerMessage.answer sdp) ∷ events)
  unfolding calls_for
  calls_for-absent s sdp events callbacks absent = elim (Bool-cases (sdp.session_id == s)) [
    | inl same ↦
        let e : sdp.session_id ≡ s = (text_eq_iff sdp.session_id s).0 same in
        let gone : get s callbacks ≡ none = rw (← e) absent in rw (gone, same) refl
    | inr other ↦ rw other refl
  ]

  -- Where one waits, an answer to the session takes it.
  calls_for-present :
      (s : Text) (sdp : WsServerSdpMessage) (events : List (Event C)) (callbacks : List (Text × C))
      (calls : List (C × WsServerSdpMessage)) (callback : C)
      → get sdp.session_id callbacks ≡ some callback
      → of_session s (calls ++ (callback, sdp) ∷ [])
          ++ calls_for s (get s (remove sdp.session_id callbacks)) events
        ≡ of_session s calls
          ++ calls_for s (get s callbacks) (received (WsServerMessage.answer sdp) ∷ events)
  unfolding calls_for
  calls_for-present s sdp events callbacks calls callback present =
      rw (of_session-append s calls ((callback, sdp) ∷ []), get-remove sdp.session_id s callbacks)
        (elim (Bool-cases (sdp.session_id == s)) [
          | inl same ↦
              let e : sdp.session_id ≡ s = (text_eq_iff sdp.session_id s).0 same in
              let there : get s callbacks ≡ some callback = rw (← e) present in
              rw (there, same)
                (append_assoc (of_session s calls) ((callback, sdp) ∷ []) (calls_for s none events))
          | inr other ↦ rw (other, append-nil (of_session s calls)) refl
        ])

  answer-Sees :
      (s : Text) (sdp : WsServerSdpMessage) (events : List (Event C)) (callbacks : List (Text × C))
      (calls : List (C × WsServerSdpMessage)) (forwarded : List WsServerMessage)
      → SeesAlways s events
      → Sees s (received (WsServerMessage.answer sdp) ∷ events) (running callbacks calls forwarded)
  unfolding run step answer forward call SeesAlways
  answer-Sees s sdp events callbacks calls forwarded induct =
      elim (Option-cases (get sdp.session_id callbacks)) [
        | inl absent ↦
            ap after absent
            ∙ (induct callbacks calls _
                ∙ ap (λ l. of_session s calls ++ l)
                    (calls_for-absent s sdp events callbacks absent))
        | inr (callback, present) ↦
            ap after present
            ∙ (induct (remove sdp.session_id callbacks) (calls ++ (callback, sdp) ∷ []) _
                ∙ calls_for-present s sdp events callbacks calls callback present)
      ]
    where
      -- What the session sees in the end, from the callback that the answer meets.
      after : Option C → List (C × WsServerSdpMessage)
      after o =
          of_session s
            (run always events (
              forward always (WsServerMessage.answer sdp)
                (call o sdp (running callbacks calls forwarded)))).calls

  run-Sees : (s : Text) (events : List (Event C)) → SeesAlways s events
  unfolding run step add_callback answer forward calls_for SeesAlways
  run-Sees s [] callbacks calls forwarded = sym (append-nil (of_session s calls))
  run-Sees s (added t callback ∷ events) callbacks calls forwarded =
      rw (← get-insert t s callback callbacks)
        (run-Sees s events (insert t callback callbacks) calls forwarded)
  run-Sees s (received (WsServerMessage.answer sdp) ∷ events) callbacks calls forwarded =
      answer-Sees s sdp events callbacks calls forwarded (run-Sees s events)
  run-Sees s (received (WsServerMessage.hello client peers) ∷ events) callbacks calls forwarded =
      run-Sees s events callbacks calls _
  run-Sees s (received (WsServerMessage.join client) ∷ events) callbacks calls forwarded =
      run-Sees s events callbacks calls _
  run-Sees s (received (WsServerMessage.update client) ∷ events) callbacks calls forwarded =
      run-Sees s events callbacks calls _
  run-Sees s (received (WsServerMessage.left id) ∷ events) callbacks calls forwarded =
      run-Sees s events callbacks calls _
  run-Sees s (received (WsServerMessage.offer sdp) ∷ events) callbacks calls forwarded =
      run-Sees s events callbacks calls _
  run-Sees s (received (WsServerMessage.error code) ∷ events) callbacks calls forwarded =
      run-Sees s events callbacks calls _

  run-forwarded :
      (events : List (Event C)) (callbacks : List (Text × C))
      (calls : List (C × WsServerSdpMessage)) (forwarded : List WsServerMessage)
      → (run always events (running callbacks calls forwarded)).forwarded
        ≡ forwarded ++ messages events
  unfolding run step add_callback answer forward call
  run-forwarded [] callbacks calls forwarded = sym (append-nil forwarded)
  run-forwarded (added t callback ∷ events) callbacks calls forwarded =
      run-forwarded events (insert t callback callbacks) calls forwarded
  run-forwarded (received (WsServerMessage.answer sdp) ∷ events) callbacks calls forwarded =
      elim (Option-cases (get sdp.session_id callbacks)) [
        | inl absent ↦
            ap after absent
            ∙ (run-forwarded events callbacks calls _ ∙ append_assoc forwarded _ (messages events))
        | inr (callback, present) ↦
            ap after present
            ∙ (run-forwarded events (remove sdp.session_id callbacks) _ _
                ∙ append_assoc forwarded _ (messages events))
      ]
    where
      after : Option C → List WsServerMessage
      after o =
          (run always events (
            forward always (WsServerMessage.answer sdp)
              (call o sdp (running callbacks calls forwarded)))).forwarded
  run-forwarded (received (WsServerMessage.hello client peers) ∷ events) callbacks calls forwarded =
      run-forwarded events callbacks calls _ ∙ append_assoc forwarded _ (messages events)
  run-forwarded (received (WsServerMessage.join client) ∷ events) callbacks calls forwarded =
      run-forwarded events callbacks calls _ ∙ append_assoc forwarded _ (messages events)
  run-forwarded (received (WsServerMessage.update client) ∷ events) callbacks calls forwarded =
      run-forwarded events callbacks calls _ ∙ append_assoc forwarded _ (messages events)
  run-forwarded (received (WsServerMessage.left id) ∷ events) callbacks calls forwarded =
      run-forwarded events callbacks calls _ ∙ append_assoc forwarded _ (messages events)
  run-forwarded (received (WsServerMessage.offer sdp) ∷ events) callbacks calls forwarded =
      run-forwarded events callbacks calls _ ∙ append_assoc forwarded _ (messages events)
  run-forwarded (received (WsServerMessage.error code) ∷ events) callbacks calls forwarded =
      run-forwarded events callbacks calls _ ∙ append_assoc forwarded _ (messages events)

  -- The listener refines one place for a callback per session: as long as its messages are taken,
  -- the calls of a session's callbacks are those of that specification, whatever else happens in
  -- other sessions, and every message is forwarded, in order.
  pub run_refines :
      (s : Text) (events : List (Event C))
      → (of_session s (run always events started).calls ≡ calls_for s none events)
        × ((run always events started).forwarded ≡ messages events)
  unfolding get SeesAlways
  run_refines s events = (run-Sees s events [] [] [], run-forwarded events [] [] [])
