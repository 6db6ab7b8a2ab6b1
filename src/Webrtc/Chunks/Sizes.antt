-- ===== src/Webrtc/Chunks/Sizes.antt =====
-- The chunks of a text and their sizes.
use localsend_uyava.Prelude.{
  ℕ, zero, suc, ◌≤◌, ◌<◌, ◌≡◌, refl, sym, ap, ◌∙◌, inl, inr, ◌⊎◌, List, [], ◌∷◌, ◌++◌, flatten,
  true, Bytes, length, take, drop, arith, Bool-cases, length-take, length-drop, take-append-drop,
  leb, leb→le, lt_of_leb, leb→le, lt_of_leb,
}
use localsend_uyava.Webrtc.Chunks.{chunk_size, chunk_size-pos, is_nil}
use localsend_uyava.Webrtc.Chunks.Split.{split, chunks_of, is_nil-length}

-- Every chunk but the last is full, and the last has at least one byte and at most a full chunk.
abbrev pub AreFull : List Bytes → Type 0
AreFull [] = Unit
AreFull (c ∷ []) = (0 < length c) × (length c ≤ chunk_size)
AreFull (c ∷ d ∷ cs) = (length c ≡ chunk_size) × AreFull (d ∷ cs)

flatten-split : (f : ℕ) (b : Bytes) → length b ≤ f → flatten (split f b) ≡ b
unfolding split flatten
flatten-split zero [] h = refl
flatten-split zero (x ∷ b) h = absurd (omega arith)
flatten-split (suc f) b h = elim (Bool-cases (is_nil b)) [
  | inl e ↦ rw e (sym (nil b e))
  | inr e ↦
      let shorter : length (drop chunk_size b) ≤ f =
        omega (arith, length-drop chunk_size b, chunk_size-pos, is_nil-length b e) in
      rw e (
        ap (λ r. take chunk_size b ++ r) (flatten-split f (drop chunk_size b) shorter)
        ∙ take-append-drop chunk_size b)
]
  where
    nil : (b : Bytes) → is_nil b ≡ true → b ≡ []
    nil [] e = refl
    nil (x ∷ b) e = cc

full_cons :
    (c : Bytes) (cs : List Bytes)
    → AreFull cs
    → (0 < length c) × (length c ≤ chunk_size)
    → (cs ≡ []) ⊎ (length c ≡ chunk_size)
    → AreFull (c ∷ cs)
full_cons c [] h k q = k
full_cons c (d ∷ cs) h k (inl e) = cc
full_cons c (d ∷ cs) h k (inr e) = (e, h)

split-AreFull : (f : ℕ) (b : Bytes) → AreFull (split f b)
unfolding split
split-AreFull zero b = tt
split-AreFull (suc f) b = elim (Bool-cases (is_nil b)) [
  | inl e ↦ rw e tt
  | inr e ↦
      let pos = is_nil-length b e in
      rw e (
        full_cons (take chunk_size b) (split f (drop chunk_size b))
          (split-AreFull f (drop chunk_size b))
          (
            omega (arith, length-take chunk_size b, chunk_size-pos),
            omega (arith, length-take chunk_size b, chunk_size-pos),
          )
          (last f b))
]
  where
    none_left : (f : ℕ) (b : Bytes) → length b ≡ 0 → split f b ≡ []
    none_left zero b h = refl
    none_left (suc f) [] h = refl
    none_left (suc f) (x ∷ b) h = absurd (omega arith)

    last :
        (f : ℕ) (b : Bytes)
        → (split f (drop chunk_size b) ≡ []) ⊎ (length (take chunk_size b) ≡ chunk_size)
    last f b = elim (Bool-cases (leb chunk_size (length b))) [
      | inl e ↦ inr (omega (arith, length-take chunk_size b, leb→le chunk_size (length b) e))
      | inr e ↦ inl (
          none_left f (drop chunk_size b)
            (omega (arith, length-drop chunk_size b, lt_of_leb chunk_size (length b) e)))
    ]

-- The chunks of a byte string are the string again, all full but the last.
pub chunks_of_lem : (b : Bytes) → (flatten (chunks_of b) ≡ b) × AreFull (chunks_of b)
unfolding chunks_of
chunks_of_lem b = (flatten-split (length b) b (omega arith), split-AreFull (length b) b)
