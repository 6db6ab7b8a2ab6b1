-- ===== src/Webrtc/Chunks/Split.antt =====
-- What `process_in_chunks` sends, against a plain definition of cutting bytes into chunks.
use mathlib.Core.Path.{fun_ext}
use mathlib.Core.List.{append_assoc, append-nil}
use localsend_uyava.Prelude.{
  ℕ, zero, suc, ◌≤◌, ◌<◌, ◌≡◌, refl, sym, ap, ◌∙◌, inl, inr, List, [], ◌∷◌, ◌++◌, flatten, true,
  false, Bytes, length, take, drop, leb, if◌then◌else◌, arith, ok, leb→le, Act, continue,
  continue_assoc, continue-ok, Bool-cases, length-drop, take-append_le, drop-append_le,
  take-eq_self, drop-eq_nil,
}
use localsend_uyava.Webrtc.Chunks.{
  chunk_size, chunk_size-pos, is_nil, drain, process_from, process_in_chunks,
}

unfoldable pub split : ℕ → Bytes → List Bytes
split zero bytes = []
split (suc fuel) bytes =
    let rest = split fuel (drop chunk_size bytes) in
    if is_nil bytes then [] else take chunk_size bytes ∷ rest

-- Pieces of `chunk_size` bytes, and a last piece of what remains.
unfoldable pub chunks_of : Bytes → List Bytes
chunks_of bytes = split (length bytes) bytes

pub is_nil-length : (b : Bytes) → is_nil b ≡ false → 0 < length b
is_nil-length [] h = cc
is_nil-length (x ∷ b) h = omega arith

split_fuel : (f g : ℕ) (b : Bytes) → length b ≤ f → length b ≤ g → split f b ≡ split g b
unfolding split
split_fuel zero zero b h k = refl
split_fuel zero (suc g) [] h k = refl
split_fuel zero (suc g) (x ∷ b) h k = absurd (omega arith)
split_fuel (suc f) zero [] h k = refl
split_fuel (suc f) zero (x ∷ b) h k = absurd (omega arith)
split_fuel (suc f) (suc g) b h k = elim (Bool-cases (is_nil b)) [
  | inl e ↦ rw e
  | inr e ↦
      let pos = is_nil-length b e in
      let shorter_f : length (drop chunk_size b) ≤ f =
        omega (arith, length-drop chunk_size b, chunk_size-pos) in
      let shorter_g : length (drop chunk_size b) ≤ g =
        omega (arith, length-drop chunk_size b, chunk_size-pos) in
      rw e
        (ap (λ r. take chunk_size b ∷ r) (split_fuel f g (drop chunk_size b) shorter_f shorter_g))
]

pub chunks_of_cons :
    (b : Bytes) → is_nil b ≡ false → chunks_of b ≡ take chunk_size b ∷ chunks_of (drop chunk_size b)
unfolding chunks_of split
chunks_of_cons [] h = cc
chunks_of_cons (x ∷ b) h =
    ap (λ r. take chunk_size (x ∷ b) ∷ r)
      (split_fuel (length b) (length (drop chunk_size (x ∷ b))) (drop chunk_size (x ∷ b))
        (omega (arith, length-drop chunk_size (x ∷ b), chunk_size-pos)) (omega arith))

shorter :
    (b : Bytes)
    → leb chunk_size (length b) ≡ true
    → (f : ℕ) → length b ≤ suc f
    → length (drop chunk_size b) ≤ f
shorter b e f h =
    omega (arith, length-drop chunk_size b, chunk_size-pos, leb→le chunk_size (length b) e)

module _ {S : Type 0} (callback : Bytes → Act S (Unit {0})) where
  unfoldable pub send_each : List Bytes → Act S (Unit {0})
  send_each [] s = (ok tt, s)
  send_each (c ∷ cs) s = continue (callback c s) (λ u. send_each cs)

  -- To drain a buffer and go on as `P` is to go on as `K`, if `K` takes full chunks off itself and
  -- agrees with `P` on what is shorter than a chunk.
  drain_lem :
      (P K : Bytes → Act S (Unit {0}))
      → ((b : Bytes) → length b < chunk_size → P b ≡ K b)
      → ((b : Bytes) (s : S)
          → chunk_size ≤ length b
          → continue (callback (take chunk_size b) s) (λ u. K (drop chunk_size b)) ≡ K b s)
      → (f : ℕ) (b : Bytes) (s : S) → length b ≤ f
      → continue (drain callback f b s) P ≡ K b s
  unfolding drain
  drain_lem P K short step zero b s h = ap (λ k. k s) (short b (omega (arith, chunk_size-pos)))
  drain_lem P K short step (suc f) b s h = elim (Bool-cases (leb chunk_size (length b))) [
    | inl e ↦ rw e (
        continue_assoc (callback (take chunk_size b) s) _ P
        ∙ ap (λ k. continue (callback (take chunk_size b) s) k)
            (fun_ext λ u.
              fun_ext λ s'. drain_lem P K short step f (drop chunk_size b) s' (shorter b e f h))
        ∙ step b s (leb→le chunk_size (length b) e))
    | inr e ↦ rw e (ap (λ k. k s) (short b (ground arith)))
  ]

  send_each-chunks_of_short :
      (b : Bytes) (s : S)
      → length b < chunk_size
      → send_each (chunks_of b) s ≡ (if is_nil b then (ok tt, s) else callback b s)
  unfolding chunks_of split send_each
  send_each-chunks_of_short [] s h = refl
  send_each-chunks_of_short (x ∷ b) s h =
      ap (λ cs. send_each cs s) (chunks_of_cons (x ∷ b) refl)
      ∙ rw
          (
            take-eq_self chunk_size (x ∷ b) (omega arith),
            drop-eq_nil chunk_size (x ∷ b) (omega arith),
          )
          (continue-ok (callback (x ∷ b) s))

  send_each-chunks_of_step :
      (rest b : Bytes) (s : S)
      → chunk_size ≤ length b
      → continue
          (callback (take chunk_size b) s)
          (λ u. send_each (chunks_of (drop chunk_size b ++ rest)))
        ≡ send_each (chunks_of (b ++ rest)) s
  unfolding send_each
  send_each-chunks_of_step rest [] s h = absurd (omega (arith, chunk_size-pos))
  send_each-chunks_of_step rest (x ∷ b) s h = sym (
      ap (λ cs. send_each cs s) (chunks_of_cons (x ∷ (b ++ rest)) refl)
      ∙ rw (take-append_le chunk_size (x ∷ b) rest h, drop-append_le chunk_size (x ∷ b) rest h)
          refl)

  process_from_lem :
      (rx : List Bytes) (buffer : Bytes) (s : S)
      → length buffer < chunk_size
      → process_from callback buffer rx s ≡ send_each (chunks_of (buffer ++ flatten rx)) s
  unfolding process_from flatten
  process_from_lem [] buffer s h = sym (
      ap (λ b. send_each (chunks_of b) s) (append-nil buffer)
      ∙ send_each-chunks_of_short buffer s h)
  process_from_lem (received ∷ rx) buffer s h =
      drain_lem (λ b'. process_from callback b' rx) (λ b'. send_each (chunks_of (b' ++ flatten rx)))
        (λ b' k. fun_ext λ s'. process_from_lem rx b' s' k) (send_each-chunks_of_step (flatten rx))
        (length (buffer ++ received)) (buffer ++ received) s (omega arith)
      ∙ ap (λ b. send_each (chunks_of b) s) (append_assoc buffer received (flatten rx))

  -- However the bytes arrive, what is sent is their concatenation cut into chunks, in order, up to
  -- the first chunk whose sending fails.
  pub process_in_chunks-send_each :
      (rx : List Bytes) (s : S)
      → process_in_chunks callback rx s ≡ send_each (chunks_of (flatten rx)) s
  unfolding process_in_chunks
  process_in_chunks-send_each rx s = process_from_lem rx [] s chunk_size-pos
