-- ===== src/App/Buffer/Joined.antt =====
-- What comes out of `buffer_receiver`.
use mathlib.Core.List.{append_assoc, append-nil}
use localsend_uyava.Prelude.{
  ◌<◌, ◌≤◌, ◌≡◌, refl, sym, ap, ◌∙◌, List, [], ◌∷◌, ◌++◌, flatten, Bytes, length, leb, leb→le, Act,
  ok, Bool-cases, inl, inr, arith,
}
use localsend_uyava.App.Buffer.{buffer_size, buffer_size-pos, buffer_from, buffer_receiver}

-- A receiver that takes everything.
abbrev pub push : Bytes → Act (List Bytes) (Unit {0})
push b taken = (ok tt, taken ++ b ∷ [])

-- All pieces have at least the size of the buffer, but the last may be smaller; none is empty.
abbrev pub AreLarge : List Bytes → Type 0
AreLarge [] = Unit
AreLarge (b ∷ []) = 0 < length b
AreLarge (b ∷ next ∷ more) = (buffer_size ≤ length b) × AreLarge (next ∷ more)

large-first :
    (b : Bytes) (out : List Bytes) → buffer_size ≤ length b → AreLarge out → AreLarge (b ∷ out)
large-first b [] large h = let p = buffer_size-pos in omega (arith, p)
large-first b (next ∷ more) large h = (large, h)

abbrev Joins : Bytes → List Bytes → List Bytes → List Bytes → Type 0
Joins buffer rx taken out =
    (buffer_from push buffer rx taken ≡ (ok tt, taken ++ out))
    × (flatten out ≡ buffer ++ flatten rx)
    × AreLarge out

joined :
    (buffer : Bytes) (rx : List Bytes) (taken : List Bytes)
    → (out : List Bytes) × Joins buffer rx taken out
unfolding buffer_from flatten
joined [] [] taken = ([], (ap (λ t. (ok tt, t)) (sym (append-nil taken)), refl, tt))
joined (x ∷ buffer) [] taken = ((x ∷ buffer) ∷ [], (refl, refl, omega arith))
joined buffer (received ∷ rx) taken =
    elim (Bool-cases (leb buffer_size (length (buffer ++ received)))) [
      | inl full ↦
          let b = buffer ++ received in
          let (out, (done, all, large)) = joined [] rx (taken ++ b ∷ []) in
          (
            b ∷ out,
            (
              rw full (done ∙ ap (λ t. (ok tt, t)) (append_assoc taken (b ∷ []) out)),
              ap (λ f. b ++ f) all ∙ append_assoc buffer received (flatten rx),
              large-first b out (leb→le buffer_size (length b) full) large,
            ),
          )
      | inr small ↦
          let (out, (done, all, large)) = joined (buffer ++ received) rx taken in
          (out, (rw small done, all ∙ append_assoc buffer received (flatten rx), large))
    ]

-- Where the receiver takes everything, the task ends normally; what came out holds exactly the bytes
-- that went in, in order, and no piece of it is empty or, but for the last, smaller than a MiB.
pub buffer_receiver_lem :
    (rx : List Bytes)
    → (out : List Bytes) × (buffer_receiver push rx [] ≡ (ok tt, out))
      × (flatten out ≡ flatten rx)
      × AreLarge out
unfolding buffer_receiver flatten
buffer_receiver_lem rx = let (out, (done, all, large)) = joined [] rx [] in (out, done, all, large)
