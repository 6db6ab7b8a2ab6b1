-- ===== src/Webrtc/Keeps.antt =====
-- Tasks that log only what a predicate allows, and leave only messages that another holds of, put
-- together from their parts.
pub mod Pins
pub mod Challenge
use mathlib.Core.Path.{subst}
use localsend_uyava.Prelude.{
  Text-Eq, ◌≡◌, refl, inl, inr, List, [], ◌∷◌, Option, none, some, Bool, true, false, Text, Bytes,
  ascii, if◌then◌else◌, Result, ok, err, continue, All, All-append, Bool-cases,
}
use localsend_uyava.Crypto.Token.{Outcome, value, panic, map_err}
use localsend_uyava.Webrtc.Chunks.{DataChannelMessage}
use localsend_uyava.Webrtc.Messages.{Json}
use localsend_uyava.Webrtc.Io.{
  Effect, message, Io, Task, ◌>>=◌, pure, fail, attempt, recv, take_first, perform,
}
use localsend_uyava.Webrtc.Pin.{or_fail}
use localsend_uyava.Webrtc.Transfer.{tell}
use localsend_uyava.Webrtc.Handshake.{context, of_result, of_outcome, receive_text}

abbrev pub Post : {A : Type 0} → (A → Type 0) → Result A → Type 0
Post R (ok a) = R a
Post R (err e) = Unit

-- The task logs only what `Q` allows, leaves only messages that `W` holds of, and ends with an error
-- or with what `R` says.
abbrev pub Keeps :
    {A : Type 0}
    → (Effect → Type 0)
    → (DataChannelMessage → Type 0)
    → (A → Type 0)
    → Task A
    → Type 0
Keeps Q W R m =
    (io : Io)
    → All Q io.log
    → All W io.incoming
    → All Q (m io).1.log × All W (m io).1.incoming × Post R (m io).0

abbrev pub Any : {A : Type 0} → A → Type 0
Any a = Unit {0}

pub All-Any : {A : Type 0} (xs : List A) → All Any xs
All-Any [] = tt
All-Any (x ∷ xs) = (tt, All-Any xs)

module _ (Q : Effect → Type 0) (W : DataChannelMessage → Type 0) where
  Keeps-continue :
      {A B : Type 0} (R : A → Type 0) (S : B → Type 0) (x : Result A × Io) (f : A → Task B)
      → All Q x.1.log
      → All W x.1.incoming
      → Post R x.0
      → ((a : A) → R a → Keeps Q W S (f a))
      → All Q (continue x f).1.log × All W (continue x f).1.incoming × Post S (continue x f).0
  Keeps-continue R S (ok a, io) f h w r k = k a r io h w
  Keeps-continue R S (err e, io) f h w r k = (h, w, tt)

  pub Keeps-bind :
      {A B : Type 0} (R : A → Type 0) (S : B → Type 0) (m : Task A) (f : A → Task B)
      → Keeps Q W R m
      → ((a : A) → R a → Keeps Q W S (f a))
      → Keeps Q W S (m >>= f)
  Keeps-bind R S m f k l io h w =
      Keeps-continue R S (m io) f (k io h w).0 (k io h w).1 (k io h w).2 l

  -- A last task need only keep to `Q`.
  abbrev pub Last : {A : Type 0} → Task A → Type 0
  Last m = (io : Io) → All Q io.log → All W io.incoming → All Q (m io).1.log

  Last-continue :
      {A B : Type 0} (R : A → Type 0) (x : Result A × Io) (f : A → Task B)
      → All Q x.1.log
      → All W x.1.incoming
      → Post R x.0
      → ((a : A) → R a → Last (f a))
      → All Q (continue x f).1.log
  Last-continue R (ok a, io) f h w r k = k a r io h w
  Last-continue R (err e, io) f h w r k = h

  pub Last-bind :
      {A B : Type 0} (R : A → Type 0) (m : Task A) (f : A → Task B)
      → Keeps Q W R m
      → ((a : A) → R a → Last (f a))
      → Last (m >>= f)
  Last-bind R m f k l io h w = Last-continue R (m io) f (k io h w).0 (k io h w).1 (k io h w).2 l

  pub everything_allowed : ((e : Effect) → Q e) → (es : List Effect) → All Q es
  everything_allowed k [] = tt
  everything_allowed k (e ∷ es) = (k e, everything_allowed k es)

  pub Keeps-pure : {A : Type 0} (R : A → Type 0) (a : A) → R a → Keeps Q W R (pure a)
  Keeps-pure R a r io h w = (h, w, r)

  pub Keeps-fail : {A : Type 0} (R : A → Type 0) (e : Text) → Keeps Q W R (fail e)
  Keeps-fail R e io h w = (h, w, tt)

  pub Keeps-or_fail :
      {A : Type 0} (e : Text) (o : Option A) → Keeps Q W (λ a. o ≡ some a) (or_fail e o)
  unfolding or_fail
  Keeps-or_fail e none io h w = (h, w, tt)
  Keeps-or_fail e (some a) io h w = (h, w, refl)

  pub Keeps-of_result : {A : Type 0} (r : Result A) → Keeps Q W (λ a. r ≡ ok a) (of_result r)
  unfolding of_result
  Keeps-of_result (ok a) io h w = (h, w, refl)
  Keeps-of_result (err e) io h w = (h, w, tt)

  pub Keeps-of_outcome : (r : Outcome Bool) → Keeps Q W (λ b. r ≡ value b) (of_outcome r)
  unfolding of_outcome
  Keeps-of_outcome (value b) io h w = (h, w, refl)
  Keeps-of_outcome panic io h w = (h, w, tt)

  Post-map_err :
      {A : Type 0} (R : A → Type 0) (e : Text) (r : Result A) → Post R r → Post R (map_err e r)
  Post-map_err R e (ok a) h = h
  Post-map_err R e (err x) h = tt

  pub Keeps-context :
      {A : Type 0} (R : A → Type 0) (e : Text) (m : Task A)
      → Keeps Q W R m
      → Keeps Q W R (context e m)
  Keeps-context R e m k io h w =
      ((k io h w).0, (k io h w).1, Post-map_err R e (m io).0 (k io h w).2)

  pub Keeps-perform :
      (alive : List Effect → Effect → Bool) (e : Effect) → Q e → Keeps Q W Any (perform alive e)
  unfolding perform
  Keeps-perform alive e q io h w = elim (Bool-cases (alive io.log e)) [
    | inl a ↦ rw a (All-append Q io.log (e ∷ []) h (q, tt), w, tt)
    | inr a ↦ rw a (h, w, tt)
  ]

  pub Keeps-if :
      {A : Type 0} (S : A → Type 0) (b : Bool) (m k : Task A)
      → (b ≡ true → Keeps Q W S m)
      → (b ≡ false → Keeps Q W S k)
      → Keeps Q W S (if b then m else k)
  Keeps-if S true m k h l = h refl
  Keeps-if S false m k h l = l refl

  pub Keeps-option :
      {A B : Type 0} (S : A → Type 0) (o : Option B) (m : Task A) (k : B → Task A)
      → Keeps Q W S m
      → ((b : B) → o ≡ some b → Keeps Q W S (k b))
      → Keeps Q W S (elim o [ none ↦ m | some b ↦ k b ])
  Keeps-option S none m k h l = h
  Keeps-option S (some b) m k h l = l b refl

  -- A message that was received.
  abbrev pub Received : Option DataChannelMessage → Type 0
  Received none = Unit
  Received (some msg) = W msg

  pub Keeps-recv : Keeps Q W Received recv
  unfolding recv
  Keeps-recv io h w = go io.incoming w
    where
      go :
          (ms : List DataChannelMessage)
          → All W ms
          → All Q (take_first ms io).1.log
            × All W (take_first ms io).1.incoming
            × Post Received (take_first ms io).0
      go [] w' = (h, w, tt)
      go (m ∷ ms) w' = (h, w'.1, w'.0)

  -- Bytes that a message carried.
  abbrev pub Carried : Bytes → Type 0
  Carried bytes = (msg : DataChannelMessage) × W msg × (bytes ≡ msg.contents)

  pub Keeps-receive_text : (e : Text) → Keeps Q W Carried (receive_text e)
  unfolding receive_text
  Keeps-receive_text e = Keeps-bind Received Carried recv _ Keeps-recv λ o arrived.
      Keeps-bind (λ msg. o ≡ some msg) Carried (or_fail e o) _ (Keeps-or_fail e o)
        λ msg came.
          Keeps-if Carried msg.is_string _ _
            (λ is. Keeps-pure Carried msg.contents (msg, subst Received came arrived, refl))
            (λ is. Keeps-fail Carried (ascii "Expected string message"))

  pub Keeps-tell :
      (json : Json) (alive : List Effect → Effect → Bool) (e : Effect)
      → Q e
      → Keeps Q W Any (tell json alive e)
  unfolding tell attempt
  Keeps-tell json alive e q io h w =
      ((Keeps-perform alive e q io h w).0, (Keeps-perform alive e q io h w).1, tt)
