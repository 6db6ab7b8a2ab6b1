-- ===== src/Crypto/Token/Parts.antt =====
-- The five parts of a token.
use localsend_uyava.Prelude.{◌≡◌, ◌≢◌, refl, [], ◌∷◌, ◌++◌, Text, arith}
use localsend_uyava.Crypto.Token.{dot, split}

-- A text with no dot in it.
abbrev pub NoDot : Text → Type 0
NoDot [] = Unit {0}
NoDot (c ∷ s) = (c ≢ dot) × NoDot s

pub split-NoDot : (s : Text) → NoDot s → split s ≡ s ∷ []
unfolding split
split-NoDot [] h = refl
split-NoDot (c ∷ s) (p, h) = ground (arith, split-NoDot s h)

-- The first dot ends the first part.
pub split-append_dot : (s t : Text) → NoDot s → split (s ++ (dot ∷ t)) ≡ s ∷ split t
unfolding split
split-append_dot [] t h = refl
split-append_dot (c ∷ s) t (p, h) = ground (arith, split-append_dot s t h)
