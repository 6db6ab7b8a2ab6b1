-- ===== src/Prelude/Results.antt =====
-- `anyhow::Result`: a value, or an error with its message.
use localsend_uyava.Prelude.Texts.{Text}
use mathlib.Core.Path.{◌≡◌, refl}

pub data Result {ℓ} (A : Type ℓ) : Type ℓ where
  ok : A → Result A
  err : Text → Result A

-- `?`
infixl 5 ◌>>=◌
abbrev pub ◌>>=◌ {ℓ κ} : {A : Type ℓ} {B : Type κ} → Result A → (A → Result B) → Result B
ok a >>= next = next a
err message >>= next = err message

-- A computation on a state `S` that may fail keeps what it did before it failed.
abbrev pub Act : Type 0 → Type 0 → Type 0
Act S A = S → Result A × S

abbrev pub continue : {S A B : Type 0} → Result A × S → (A → Act S B) → Result B × S
continue (ok a, s) f = f a s
continue (err e, s) f = (err e, s)

pub continue_assoc :
    {S A B C : Type 0} (x : Result A × S) (f : A → Act S B) (g : B → Act S C)
    → continue (continue x f) g ≡ continue x (λ a s. continue (f a s) g)
continue_assoc (ok a, s) f g = refl
continue_assoc (err e, s) f g = refl

pub continue-ok : {S : Type 0} (x : Result (Unit {0}) × S) → continue x (λ u s. (ok tt, s)) ≡ x
continue-ok (ok tt, s) = refl
continue-ok (err e, s) = refl

pub continue-eq-ok :
    {S A B : Type 0} (x : Result A × S) (f : A → Act S B) (b : B) (s : S)
    → continue x f ≡ (ok b, s)
    → (a : A) × (t : S) × (x ≡ (ok a, t)) × (f a t ≡ (ok b, s))
continue-eq-ok (ok a, t) f b s h = (a, t, refl, h)
continue-eq-ok (err e, t) f b s h = cc

-- Inversion of `?`.
pub >>=-eq-ok {ℓ κ} :
    {A : Type ℓ} {B : Type κ} {result : B} (first : Result A) (next : A → Result B)
    → (first >>= next) ≡ ok result
    → (a : A) × (first ≡ ok a) × (next a ≡ ok result)
>>=-eq-ok (ok a) next h = (a, refl, h)
>>=-eq-ok (err e) next h = cc
