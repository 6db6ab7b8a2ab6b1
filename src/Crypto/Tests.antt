-- ===== src/Crypto/Tests.antt =====
-- Tokens of a toy instance of the crates, on which the theorems are tried.
use mathlib.Core.Path.{subst}
use localsend_uyava.Prelude.{
  ℕ-Eq, Text-Eq, text_eq, ◌+◌, ◌-◌, ◌%◌, ◌≤◌, ◌<◌, ◌≡◌, true, refl, [], ◌∷◌, map, Bytes, Text,
  length, Result, ok, err, arith, All,
}
use localsend_uyava.Crypto.Toy.{toy_with, toy}
use localsend_uyava.Crypto.Token.{
  Crypto, value, split, from_le_bytes, to_le_bytes, to_verifying_key, generate_token_nonce,
  generate_token_timestamp, check_parts, verify_parts, verify_token_with_result, check_nonce,
  verify_token_nonce, check_timestamp, verify_token_timestamp,
}
use localsend_uyava.Crypto.Token.Checks.{
  IsProof, verify_token_nonce_sound, verify_token_timestamp_sound,
}

-- What it decodes are bytes.
abbrev byte_toy : Crypto
byte_toy = toy_with (λ t. ok (map (λ n. (n - 47) % 256) t))

abbrev text_of : Result Text → Text
text_of (ok t) = t
text_of (err e) = []

abbrev nonce_token : Text
nonce_token = text_of (generate_token_nonce toy 7 (1 ∷ 2 ∷ []))

nonce_token_lem : generate_token_nonce toy 7 (1 ∷ 2 ∷ []) ≡ ok nonce_token
unfolding generate_token_nonce
nonce_token_lem = refl

abbrev time_token : Text
time_token = text_of (generate_token_timestamp toy 7 (ok 4000))

time_token_lem : generate_token_timestamp toy 7 (ok 4000) ≡ ok time_token
unfolding generate_token_timestamp generate_token_nonce to_le_bytes
time_token_lem = refl

nonce_token_accepted :
    verify_token_nonce toy (to_verifying_key toy 7) nonce_token (1 ∷ 2 ∷ []) ≡ value true
unfolding generate_token_nonce verify_token_nonce verify_token_with_result check_nonce check_parts
    verify_parts split to_verifying_key text_eq
nonce_token_accepted = refl

verify_token_nonce_sound_example : IsProof toy (to_verifying_key toy 7) nonce_token (1 ∷ 2 ∷ [])
verify_token_nonce_sound_example =
    verify_token_nonce_sound toy (to_verifying_key toy 7) nonce_token (1 ∷ 2 ∷ [])
      nonce_token_accepted

decoded : (t : Text) → All (λ n. n < 256) (map (λ n. (n - 47) % 256) t)
decoded [] = tt
decoded (x ∷ t) = (omega arith, decoded t)

decoded_bytes : (t : Text) (b : Bytes) → byte_toy.decode t ≡ ok b → All (λ n. n < 256) b
decoded_bytes t b e = subst (All (λ n. n < 256)) (cc e) (decoded t)

abbrev byte_token : Text
byte_token = text_of (generate_token_timestamp byte_toy 7 (ok 4000))

byte_token_accepted :
    verify_token_timestamp byte_toy (to_verifying_key byte_toy 7) byte_token (ok 5000) ≡ value true
unfolding generate_token_timestamp generate_token_nonce to_le_bytes verify_token_timestamp
    verify_token_with_result check_timestamp check_parts verify_parts split from_le_bytes
    to_verifying_key text_eq
byte_token_accepted = refl

verify_token_timestamp_sound_example :
    (salt : Bytes) × IsProof byte_toy (to_verifying_key byte_toy 7) byte_token salt
    × (length salt ≡ 8)
    × (from_le_bytes salt ≤ 5000)
    × (5000 ≤ from_le_bytes salt + 3600)
verify_token_timestamp_sound_example =
    verify_token_timestamp_sound byte_toy (to_verifying_key byte_toy 7) byte_token 5000
      (omega arith) (omega arith) decoded_bytes byte_token_accepted
