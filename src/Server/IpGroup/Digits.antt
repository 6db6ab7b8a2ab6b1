-- ===== src/Server/IpGroup/Digits.antt =====
-- The printed numbers of an address.
use mathlib.Core.Path.{subst}
use native.Mathlib.Nat.{pow-suc}
use localsend_uyava.Prelude.{
  ℕ, zero, suc, ◌*◌, ◌/◌, ◌%◌, ◌^◌, ◌≤◌, ◌<◌, ◌≡◌, ◌≢◌, refl, sym, inl, inr, [], ◌∷◌, ◌++◌, Text,
  ltb, false, arith, Bool-cases, All, All-append,
}
use localsend_uyava.Server.IpGroup.{digit, print}

-- Neither a dot nor a colon.
abbrev pub IsDigit : ℕ → Type 0
IsDigit c = (c ≢ b'.') × (c ≢ b':')

digit-IsDigit : (n : ℕ) → n < 16 → IsDigit (digit n)
unfolding digit
digit-IsDigit n h = ground arith

digit_injective : (n m : ℕ) → n < 16 → m < 16 → digit n ≡ digit m → n ≡ m
unfolding digit
digit_injective n m h k e = ground arith

cons_head : {x y : ℕ} {xs ys : Text} → (x ∷ xs) ≡ (y ∷ ys) → x ≡ y
cons_head e = cc

cons_tail : {x y : ℕ} {xs ys : Text} → (x ∷ xs) ≡ (y ∷ ys) → xs ≡ ys
cons_tail e = cc

-- Two texts with a first separator agree up to it, in it and behind it.
pub separated :
    (xs xs' ys ys' : Text) (s t : ℕ)
    → All IsDigit xs
    → All IsDigit xs'
    → (IsDigit s → ⊥)
    → (IsDigit t → ⊥)
    → (xs ++ s ∷ ys) ≡ (xs' ++ t ∷ ys')
    → (xs ≡ xs') × (s ≡ t) × (ys ≡ ys')
separated [] [] ys ys' s t h k p q e = (refl, cons_head e, cons_tail e)
separated [] (x ∷ xs') ys ys' s t h (d, k) p q e = absurd (p (subst IsDigit (sym (cons_head e)) d))
separated (x ∷ xs) [] ys ys' s t (d, h) k p q e = absurd (q (subst IsDigit (cons_head e) d))
separated (x ∷ xs) (y ∷ xs') ys ys' s t (_, h) (_, k) p q e =
    let (same, sep, rest) = separated xs xs' ys ys' s t h k p q (cons_tail e) in
    (cc (cons_head e, same), sep, rest)

pub dot_ends : IsDigit b'.' → ⊥
dot_ends d = d.0 refl

pub colon_ends : IsDigit b':' → ⊥
colon_ends d = d.1 refl

snoc_injective : (xs ys : Text) (x y : ℕ) → (xs ++ x ∷ []) ≡ (ys ++ y ∷ []) → (xs ≡ ys) × (x ≡ y)
snoc_injective [] [] x y e = (refl, cons_head e)
snoc_injective [] (b ∷ []) x y e = absurd (cc (cons_tail e))
snoc_injective [] (b ∷ c ∷ ys) x y e = absurd (cc (cons_tail e))
snoc_injective (a ∷ []) [] x y e = absurd (cc (cons_tail e))
snoc_injective (a ∷ c ∷ xs) [] x y e = absurd (cc (cons_tail e))
snoc_injective (a ∷ xs) (b ∷ ys) x y e =
    let (same, last) = snoc_injective xs ys x y (cons_tail e) in (cc (cons_head e, same), last)

cons_nil : (x : ℕ) (xs : Text) → (x ∷ xs) ≡ [] → ⊥
cons_nil x xs e = cc

snoc_nil : (xs : Text) (x : ℕ) → (xs ++ x ∷ []) ≡ [] → ⊥
snoc_nil [] x e = cc
snoc_nil (a ∷ xs) x e = cc

-- A base of at most 16.
module _ (base : ℕ) (small : base ≤ 16) (rest_small : (n : ℕ) → n % base < base)
    (parts : (n m : ℕ) → n / base ≡ m / base → n % base ≡ m % base → n ≡ m)
    (shrinks : (n f : ℕ) → n < base ^ suc f → n / base < base ^ f) (one : base ^ 0 ≡ 1)
    (grows : (n : ℕ) → base ≤ n → 0 < n / base) where
  print-IsDigit : (f n : ℕ) → All IsDigit (print base f n)
  unfolding print
  print-IsDigit zero n = tt
  print-IsDigit (suc f) n = elim (Bool-cases (ltb n base)) [
    | inl e ↦ rw e (digit-IsDigit n (ground (arith, e)), tt)
    | inr e ↦ rw e (
        All-append IsDigit (print base f (n / base)) (digit (n % base) ∷ [])
          (print-IsDigit f (n / base)) (digit-IsDigit (n % base) (omega (arith, rest_small n)), tt))
  ]

  print_nil : (f n : ℕ) → n < base ^ f → print base f n ≡ [] → n ≡ 0
  unfolding print
  print_nil zero n h e = omega (arith, one)
  print_nil (suc f) n h e = elim (Bool-cases (ltb n base)) [
    | inl q ↦ absurd (cons_nil (digit n) [] (rw q at e))
    | inr q ↦ absurd (snoc_nil (print base f (n / base)) (digit (n % base)) (rw q at e))
  ]

  -- A text of one digit is that of no number past the base.
  no_more :
      (f n m : ℕ)
      → m < base ^ suc f
      → ltb m base ≡ false
      → (digit n ∷ []) ≡ (print base f (m / base) ++ digit (m % base) ∷ [])
      → ⊥
  no_more f n m h q e =
      let (nil, last) =
        snoc_injective [] (print base f (m / base)) (digit n) (digit (m % base)) e in
      let zeroed = print_nil f (m / base) (shrinks m f h) (sym nil) in
      ground (arith, q, zeroed, grows m)

  print_injective :
      (f n m : ℕ) → n < base ^ f → m < base ^ f → print base f n ≡ print base f m → n ≡ m
  unfolding print
  print_injective zero n m h k e = omega (arith, one)
  print_injective (suc f) n m h k e = elim (Bool-cases (ltb n base)) [
    | inl q ↦ elim (Bool-cases (ltb m base)) [
      | inl r ↦
          digit_injective n m (ground (arith, q)) (ground (arith, r)) (cons_head (rw (q, r) at e))
      | inr r ↦ absurd (no_more f n m k r (rw (q, r) at e))
    ]
    | inr q ↦ elim (Bool-cases (ltb m base)) [
      | inl r ↦ absurd (no_more f m n h q (sym (rw (q, r) at e)))
      | inr r ↦
          let (front, last) =
            snoc_injective (print base f (n / base)) (print base f (m / base)) (digit (n % base))
              (digit (m % base)) (rw (q, r) at e) in
          parts n m (print_injective f (n / base) (m / base) (shrinks n f h) (shrinks m f k) front)
            (digit_injective (n % base) (m % base) (omega (arith, rest_small n))
              (omega (arith, rest_small m)) last)
    ]
  ]

shrinks_10 : (n f : ℕ) → n < 10 ^ suc f → n / 10 < 10 ^ f
shrinks_10 n f h = let k : n < 10 ^ f * 10 = rw pow-suc at h in omega arith

shrinks_16 : (n f : ℕ) → n < 16 ^ suc f → n / 16 < 16 ^ f
shrinks_16 n f h = let k : n < 16 ^ f * 16 = rw pow-suc at h in omega arith

pub decimal_injective : (n m : ℕ) → n < 256 → m < 256 → print 10 3 n ≡ print 10 3 m → n ≡ m
decimal_injective n m h k e =
    print_injective 10 (omega arith) (λ i. omega arith) (λ i j p q. omega arith) shrinks_10 refl
      (λ i p. omega arith) 3 n m (omega arith) (omega arith) e

pub hex_injective : (n m : ℕ) → n < 2 ^ 16 → m < 2 ^ 16 → print 16 4 n ≡ print 16 4 m → n ≡ m
hex_injective n m h k e =
    print_injective 16 (omega arith) (λ i. omega arith) (λ i j p q. omega arith) shrinks_16 refl
      (λ i p. omega arith) 4 n m (omega arith) (omega arith) e

pub decimal-IsDigit : (n : ℕ) → All IsDigit (print 10 3 n)
decimal-IsDigit n =
    print-IsDigit 10 (omega arith) (λ i. omega arith) (λ i j p q. omega arith) shrinks_10 refl
      (λ i p. omega arith) 3 n

pub hex-IsDigit : (n : ℕ) → All IsDigit (print 16 4 n)
hex-IsDigit n =
    print-IsDigit 16 (omega arith) (λ i. omega arith) (λ i j p q. omega arith) shrinks_16 refl
      (λ i p. omega arith) 4 n
