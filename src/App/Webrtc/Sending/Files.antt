-- ===== src/App/Webrtc/Sending/Files.antt =====
-- Which files and bytes the core library gets of an application that sends.
use mathlib.Core.List.{append_assoc, append-nil}
use localsend_uyava.Prelude.{
  ℕ, ℕ-Eq, zero, suc, ◌==◌, ◌+◌, ◌≤◌, ==-refl, ◌≡◌, refl, ap, ◌∙◌, List, [], ◌∷◌, ◌++◌, length,
  length-append, Bool, true, false, Bytes, Text, if◌then◌else◌, Option, arith,
}
use localsend_uyava.Webrtc.Messages.{RtcStatus, RtcFileError}
use localsend_uyava.Webrtc.Transfer.{RtcFile}
use localsend_uyava.App.Webrtc.Sending
use localsend_uyava.App.Webrtc.Sending.{RtcSendController, offered, put}

-- `send` goes to the sender with that number.
pub data Call : Type 0 where
  send_file : Bool → Text → Call
  send : Bool → ℕ → Bytes → Call

abbrev pub step : Call → RtcSendController → RtcSendController
step (send_file alive file_id) r = (Sending.send_file alive file_id r).1
step (send alive sender bytes) r = (Sending.send alive sender bytes r).1

abbrev pub run : List Call → RtcSendController → RtcSendController
run [] r = r
run (call ∷ calls) r = run calls (step call r)

-- What is sent with one sender.
unfoldable pub pieces : ℕ → List Call → List Bytes
pieces n [] = []
pieces n (send true m bytes ∷ calls) =
    let rest = pieces n calls in if m == n then bytes ∷ rest else rest
pieces n (call ∷ calls) = pieces n calls

-- The files, numbered from `n` on, each with what is sent with its sender from then on.
unfoldable pub files_of : ℕ → List Call → List RtcFile
unfolding pieces
files_of n [] = []
files_of n (send_file true file_id ∷ calls) =
    (record { file_id = file_id; binary_rx = pieces n calls }) ∷ files_of (n + 1) calls
files_of n (call ∷ calls) = files_of n calls

abbrev filled : ℕ → List RtcFile → List Call → List RtcFile
filled n [] calls = []
filled n (file ∷ files) calls =
    record file { binary_rx = file.binary_rx ++ pieces n calls } ∷ filled (n + 1) files calls

filled-nil : (n : ℕ) (files : List RtcFile) → filled n files [] ≡ files
unfolding pieces
filled-nil n [] = refl
filled-nil n (file ∷ files) = rw (append-nil file.binary_rx, filled-nil (n + 1) files) refl

-- A call that sends nothing with these senders.
filled-skip :
    (n : ℕ) (files : List RtcFile) (call : Call) (calls : List Call)
    → ((m : ℕ) → n ≤ m → pieces m (call ∷ calls) ≡ pieces m calls)
    → filled n files (call ∷ calls) ≡ filled n files calls
filled-skip n [] call calls h = refl
filled-skip n (file ∷ files) call calls h =
    rw (h n (omega arith), filled-skip (n + 1) files call calls (λ m le. h m (omega (arith, le))))
      refl

filled-append :
    (n : ℕ) (files : List RtcFile) (file : RtcFile) (calls : List Call)
    → filled n (files ++ file ∷ []) calls
      ≡ filled n files calls
        ++ (record file { binary_rx = file.binary_rx ++ pieces (n + length files) calls }) ∷ []
filled-append n [] file calls = let e : n + 0 ≡ n = omega arith in rw e refl
filled-append n (f ∷ files) file calls =
    let e : n + 1 + length files ≡ n + suc (length files) = omega arith in
    ap (λ l. record f { binary_rx = f.binary_rx ++ pieces n calls } ∷ l)
      (filled-append (n + 1) files file calls
        ∙ ap
            (λ k.
              filled (n + 1) files calls
              ++ (record file { binary_rx = file.binary_rx ++ pieces k calls }) ∷ [])
            e)

filled-put :
    (n m : ℕ) (files : List RtcFile) (bytes : Bytes) (calls : List Call)
    → filled n (put m bytes files) calls ≡ filled n files (send true (n + m) bytes ∷ calls)
unfolding put pieces
filled-put n m [] bytes calls = refl
filled-put n zero (file ∷ files) bytes calls =
    let here : n + 0 ≡ n = omega arith in
    let others =
      filled-skip (n + 1) files (send true n bytes) calls
        (λ m after. let other : (n == m) ≡ false = ground (arith, after) in rw other refl) in
    rw (here, ==-refl n, append_assoc file.binary_rx (bytes ∷ []) (pieces n calls), others) refl
filled-put n (suc m) (file ∷ files) bytes calls =
    let e : n + 1 + m ≡ n + suc m = omega arith in
    let other : (n + suc m == n) ≡ false = ground arith in
    let rest =
      filled-put (n + 1) m files bytes calls
      ∙ ap (λ k. filled (n + 1) files (send true k bytes ∷ calls)) e in
    rw (other, rest) refl

length-put :
    (m : ℕ) (files : List RtcFile) (bytes : Bytes) → length (put m bytes files) ≡ length files
unfolding put
length-put m [] bytes = refl
length-put zero (file ∷ files) bytes = refl
length-put (suc m) (file ∷ files) bytes = omega (arith, length-put m files bytes)

run-filled :
    (calls : List Call) (r : RtcSendController)
    → (run calls r).sending ≡ filled 0 r.sending calls ++ files_of (length r.sending) calls
unfolding files_of pieces Sending.send_file Sending.send
run-filled [] r = rw (filled-nil 0 r.sending, append-nil r.sending) refl
run-filled (send_file true file_id ∷ calls) r =
    let file : RtcFile = record { file_id = file_id; binary_rx = [] } in
    let one_more : length (r.sending ++ file ∷ []) ≡ length r.sending + 1 =
      omega (arith, length-append r.sending (file ∷ [])) in
    let at_end : 0 + length r.sending ≡ length r.sending = omega arith in
    run-filled calls (Sending.send_file true file_id r).1
    ∙ rw
        (
          filled-append 0 r.sending file calls,
          one_more,
          at_end,
          filled-skip 0 r.sending (send_file true file_id) calls (λ m le. refl),
        )
        (append_assoc (filled 0 r.sending calls) _ (files_of (length r.sending + 1) calls))
run-filled (send_file false file_id ∷ calls) r =
    run-filled calls r
    ∙ rw (filled-skip 0 r.sending (send_file false file_id) calls (λ m le. refl)) refl
run-filled (send true m bytes ∷ calls) r =
    let at_m : 0 + m ≡ m = omega arith in
    run-filled calls (Sending.send true m bytes r).1
    ∙ rw (filled-put 0 m r.sending bytes calls, length-put m r.sending bytes, at_m) refl
run-filled (send false m bytes ∷ calls) r =
    run-filled calls r ∙ rw (filled-skip 0 r.sending (send false m bytes) calls (λ m le. refl)) refl

-- Whatever an application does with `send_file` and the senders that it gets, in whatever order:
-- the core library gets the files in the order in which they were sent, each with the
-- bytes that were sent with its sender, in order, and with no others.
pub run-files_of :
    (calls : List Call) (statuses : List RtcStatus) (selected : Option (List Text))
    (errors : List RtcFileError)
    → (run calls (offered statuses selected errors)).sending ≡ files_of 0 calls
unfolding offered
run-files_of calls statuses selected errors = run-filled calls (offered statuses selected errors)
