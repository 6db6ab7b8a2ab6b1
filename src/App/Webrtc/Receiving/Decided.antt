-- ===== src/App/Webrtc/Receiving/Decided.antt =====
-- What calls of a controller in any order come to.
use localsend_uyava.Prelude.{
  ◌≡◌, refl, sym, ap, ◌∙◌, List, [], ◌∷◌, map, Option, none, some, Bool, true, false, Text, ascii,
}
use localsend_uyava.Model.{FileDto}
use localsend_uyava.Webrtc.Messages.{RtcStatus, RtcFileError}
use localsend_uyava.Webrtc.Transfer.{RtcFile}
use localsend_uyava.App.Webrtc.{Sunk, add, add_error}
use localsend_uyava.App.Webrtc.PinSender.Answers
use localsend_uyava.App.Webrtc.PinSender.Answers.{numbered, answers, run-numbered}
use localsend_uyava.App.Webrtc.Receiving
use localsend_uyava.App.Webrtc.Receiving.{RtcReceiveController, drain, accepted, decide}
use localsend_uyava.App.Webrtc.Receiving.Calls.{
  Call, pin_requested, listen_status, listen_error, listen_receiving, listen_files, send_pin,
  send_selection, decline, send_file_status, Got, statuses, run,
}

-- The decision that reaches the core library: the first that is made, if it succeeds.
unfoldable pub decision : List Call → Option (Option (List Text))
decision [] = none
decision (send_selection true selection ∷ calls) = some (some selection)
decision (send_selection false selection ∷ calls) = none
decision (decline true ∷ calls) = some none
decision (decline false ∷ calls) = none
decision (call ∷ calls) = decision calls

-- The calls that concern the PIN.
unfoldable pub pin_calls : List Call → List Answers.Call
pin_calls [] = []
pin_calls (pin_requested ∷ calls) = Answers.requested ∷ pin_calls calls
pin_calls (send_pin alive pin ∷ calls) = Answers.send alive pin ∷ pin_calls calls
pin_calls (call ∷ calls) = pin_calls calls

-- What the calls of `listen_status` should hear: the first of them everything, the others an error.
unfoldable pub refusals : List Call → List (List (Sunk RtcStatus))
refusals [] = []
refusals (listen_status ∷ calls) =
    (add_error (ascii "Status stream already listened to") ∷ []) ∷ refusals calls
refusals (call ∷ calls) = refusals calls

unfoldable pub heard : List RtcStatus → List Call → List (List (Sunk RtcStatus))
unfolding refusals
heard items [] = []
heard items (listen_status ∷ calls) = map add items ∷ refusals calls
heard items (call ∷ calls) = heard items calls

-- What they hear.
abbrev pub status_sinks : List Got → List (List (Sunk RtcStatus))
status_sinks [] = []
status_sinks (statuses sink ∷ more) = sink ∷ status_sinks more
status_sinks (got ∷ more) = status_sinks more

module _ (alive : Bool) (d : Option (List Text)) (r : RtcReceiveController) where
  decide-pin_tx : (o : Option (Unit {0})) → (decide alive d o r).1.pin_tx ≡ r.pin_tx
  decide-pin_tx none = refl
  decide-pin_tx (some u) = elim alive as (λ b. (decide b d (some u) r).1.pin_tx ≡ r.pin_tx) [
    | true ↦ refl
    | false ↦ refl
  ]

  decide-status_rx : (o : Option (Unit {0})) → (decide alive d o r).1.status_rx ≡ r.status_rx
  decide-status_rx none = refl
  decide-status_rx (some u) =
      elim alive as (λ b. (decide b d (some u) r).1.status_rx ≡ r.status_rx) [
        | true ↦ refl
        | false ↦ refl
      ]

run-pin_tx :
    (calls : List Call) (r : RtcReceiveController)
    → (run calls r).1.pin_tx ≡ Answers.run (pin_calls calls) r.pin_tx
unfolding pin_calls Receiving.listen_status Receiving.listen_error Receiving.listen_receiving
    Receiving.listen_files Receiving.send_pin Receiving.send_selection Receiving.decline
    Receiving.send_file_status
run-pin_tx [] r = refl
run-pin_tx (send_selection alive selection ∷ calls) r =
    run-pin_tx calls _
    ∙ ap (Answers.run (pin_calls calls)) (decide-pin_tx alive (some selection) r r.selected_tx)
run-pin_tx (decline alive ∷ calls) r =
    run-pin_tx calls _
    ∙ ap (Answers.run (pin_calls calls)) (decide-pin_tx alive none r r.selected_tx)
run-pin_tx (send_file_status true response ∷ calls) r = run-pin_tx calls _
run-pin_tx (send_file_status false response ∷ calls) r = run-pin_tx calls _
run-pin_tx (pin_requested ∷ calls) r = run-pin_tx calls _
run-pin_tx (send_pin alive pin ∷ calls) r = run-pin_tx calls _
run-pin_tx (listen_status ∷ calls) r = run-pin_tx calls _
run-pin_tx (listen_error ∷ calls) r = run-pin_tx calls _
run-pin_tx (listen_receiving ∷ calls) r = run-pin_tx calls _
run-pin_tx (listen_files ∷ calls) r = run-pin_tx calls _

abbrev hears : Option (List RtcStatus) → List Call → List (List (Sunk RtcStatus))
hears none calls = refusals calls
hears (some items) calls = heard items calls

-- Another call leaves what the later ones hear.
hears_later :
    (o : Option (List RtcStatus)) (call : Call) (calls : List Call)
    → ((items : List RtcStatus) → heard items (call ∷ calls) ≡ heard items calls)
    → refusals (call ∷ calls) ≡ refusals calls
    → hears o calls ≡ hears o (call ∷ calls)
hears_later none call calls h k = sym k
hears_later (some items) call calls h k = sym (h items)

first_hears :
    (o : Option (List RtcStatus)) (calls : List Call)
    → drain (λ s. s) (ascii "Status stream already listened to") o ∷ refusals calls
      ≡ hears o (listen_status ∷ calls)
unfolding heard drain
first_hears none calls = refl
first_hears (some items) calls = refl

run-heard :
    (calls : List Call) (r : RtcReceiveController)
    → status_sinks (run calls r).0 ≡ hears r.status_rx calls
unfolding heard Receiving.listen_status Receiving.listen_error Receiving.listen_receiving
    Receiving.listen_files Receiving.send_pin Receiving.send_selection Receiving.decline
    Receiving.send_file_status
run-heard [] r = elim r.status_rx as (λ o. [] ≡ hears o []) [ none ↦ refl | some items ↦ refl ]
run-heard (listen_status ∷ calls) r =
    ap (λ l. drain (λ s. s) (ascii "Status stream already listened to") r.status_rx ∷ l)
      (run-heard calls (record r { status_rx = none }))
    ∙ first_hears r.status_rx calls
run-heard (send_selection alive selection ∷ calls) r =
    run-heard calls _
    ∙ (ap (λ o. hears o calls) (decide-status_rx alive (some selection) r r.selected_tx)
        ∙ hears_later r.status_rx _ calls (λ i. refl) refl)
run-heard (decline alive ∷ calls) r =
    run-heard calls _
    ∙ (ap (λ o. hears o calls) (decide-status_rx alive none r r.selected_tx)
        ∙ hears_later r.status_rx _ calls (λ i. refl) refl)
run-heard (send_file_status true response ∷ calls) r =
    run-heard calls _ ∙ hears_later r.status_rx _ calls (λ i. refl) refl
run-heard (send_file_status false response ∷ calls) r =
    run-heard calls _ ∙ hears_later r.status_rx _ calls (λ i. refl) refl
run-heard (pin_requested ∷ calls) r =
    run-heard calls _ ∙ hears_later r.status_rx _ calls (λ i. refl) refl
run-heard (send_pin alive pin ∷ calls) r =
    run-heard calls _ ∙ hears_later r.status_rx _ calls (λ i. refl) refl
run-heard (listen_error ∷ calls) r =
    run-heard calls _ ∙ hears_later r.status_rx _ calls (λ i. refl) refl
run-heard (listen_receiving ∷ calls) r =
    run-heard calls _ ∙ hears_later r.status_rx _ calls (λ i. refl) refl
run-heard (listen_files ∷ calls) r =
    run-heard calls _ ∙ hears_later r.status_rx _ calls (λ i. refl) refl

-- Once a decision was made, no other changes it.
run-kept :
    (calls : List Call) (r : RtcReceiveController)
    → r.selected_tx ≡ none
    → (run calls r).1.selected ≡ r.selected
unfolding Receiving.listen_status Receiving.listen_error Receiving.listen_receiving
    Receiving.listen_files Receiving.send_pin Receiving.send_selection Receiving.decline
    Receiving.send_file_status
run-kept [] r o = refl
run-kept (send_selection alive selection ∷ calls) r o =
    ap (λ t. (run calls (decide alive (some selection) t r).1).1.selected) o ∙ run-kept calls r o
run-kept (decline alive ∷ calls) r o =
    ap (λ t. (run calls (decide alive none t r).1).1.selected) o ∙ run-kept calls r o
run-kept (send_file_status true response ∷ calls) r o = run-kept calls _ o
run-kept (send_file_status false response ∷ calls) r o = run-kept calls _ o
run-kept (pin_requested ∷ calls) r o = run-kept calls _ o
run-kept (send_pin alive pin ∷ calls) r o = run-kept calls _ o
run-kept (listen_status ∷ calls) r o = run-kept calls _ o
run-kept (listen_error ∷ calls) r o = run-kept calls _ o
run-kept (listen_receiving ∷ calls) r o = run-kept calls _ o
run-kept (listen_files ∷ calls) r o = run-kept calls _ o

run-selected :
    (calls : List Call) (r : RtcReceiveController)
    → r.selected ≡ none
    → r.selected_tx ≡ some tt
    → (run calls r).1.selected ≡ decision calls
unfolding decision Receiving.listen_status Receiving.listen_error Receiving.listen_receiving
    Receiving.listen_files Receiving.send_pin Receiving.send_selection Receiving.decline
    Receiving.send_file_status
run-selected [] r h o = h
run-selected (send_selection true selection ∷ calls) r h o =
    ap (λ t. (run calls (decide true (some selection) t r).1).1.selected) o
    ∙ (run-kept calls _ refl)
run-selected (send_selection false selection ∷ calls) r h o =
    ap (λ t. (run calls (decide false (some selection) t r).1).1.selected) o
    ∙ (run-kept calls _ refl ∙ h)
run-selected (decline true ∷ calls) r h o =
    ap (λ t. (run calls (decide true none t r).1).1.selected) o ∙ (run-kept calls _ refl)
run-selected (decline false ∷ calls) r h o =
    ap (λ t. (run calls (decide false none t r).1).1.selected) o ∙ (run-kept calls _ refl ∙ h)
run-selected (send_file_status true response ∷ calls) r h o = run-selected calls _ h o
run-selected (send_file_status false response ∷ calls) r h o = run-selected calls _ h o
run-selected (pin_requested ∷ calls) r h o = run-selected calls _ h o
run-selected (send_pin alive pin ∷ calls) r h o = run-selected calls _ h o
run-selected (listen_status ∷ calls) r h o = run-selected calls _ h o
run-selected (listen_error ∷ calls) r h o = run-selected calls _ h o
run-selected (listen_receiving ∷ calls) r h o = run-selected calls _ h o
run-selected (listen_files ∷ calls) r h o = run-selected calls _ h o

-- A controller that `accept_offer` has returned, whatever is called and in whatever order, and
-- whenever PINs are requested: the core library gets the first decision about the files, if there
-- was somebody to take it, and no other; each of its requests for a PIN gets the first PIN that is
-- sent before the next request, if the core library still waited for that one; and the first call
-- that listens to the status hears all of it, and every later one an error.
pub run_lem :
    (calls : List Call) (items : List RtcStatus) (files : Option (List FileDto))
    (errors : List RtcFileError) (receiving : List RtcFile)
    → let (got, r) = run calls (accepted items files errors receiving) in
      (r.selected ≡ decision calls)
      × (r.pin_tx.sent ≡ numbered 0 (answers (pin_calls calls)))
      × (status_sinks got ≡ heard items calls)
unfolding accepted
run_lem calls items files errors receiving =
    let r = accepted items files errors receiving in
    (
      run-selected calls r refl refl,
      ap (λ p. p.sent) (run-pin_tx calls r) ∙ run-numbered (pin_calls calls),
      run-heard calls r,
    )
