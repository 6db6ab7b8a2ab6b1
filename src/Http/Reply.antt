-- ===== src/Http/Reply.antt =====
-- `Result` with an error type of its own, in code that works on a state.
use localsend_uyava.Prelude.{Option, none, some, Result}

pub data Reply (E A : Type 0) : Type 0 where
  ok : A → Reply E A
  err : E → Reply E A

abbrev pub Act : Type 0 → Type 0 → Type 0 → Type 0
Act S E A = S → Reply E A × S

abbrev pub continue : {S E A B : Type 0} → Reply E A × S → (A → Act S E B) → Reply E B × S
continue (ok a, s) f = f a s
continue (err e, s) f = (err e, s)

infixl 5 ◌>>=◌ ◌>>◌
abbrev pub ◌>>=◌ : {S E A B : Type 0} → Act S E A → (A → Act S E B) → Act S E B
◌>>=◌ m f s = continue (m s) f

abbrev pub ◌>>◌ : {S E B : Type 0} → Act S E (Unit {0}) → Act S E B → Act S E B
m >> k = m >>= λ _. k

abbrev pub pure : {S E A : Type 0} → A → Act S E A
pure a s = (ok a, s)

abbrev pub fail : {S E A : Type 0} → E → Act S E A
fail e s = (err e, s)

-- `?` on a value that is there or not, or on the result of a crate, of whose error `f` is made.
abbrev pub or_fail : {S E A : Type 0} → E → Option A → Act S E A
or_fail e none = fail e
or_fail e (some a) = pure a

abbrev pub of_result : {S E A : Type 0} → E → Result A → Act S E A
of_result e (Result.ok a) = pure a
of_result e (Result.err _) = fail e

abbrev pub modify : {S E : Type 0} → (S → S) → Act S E (Unit {0})
modify f s = (ok tt, f s)

abbrev pub get_state : {S E : Type 0} → Act S E S
get_state s = (ok s, s)
