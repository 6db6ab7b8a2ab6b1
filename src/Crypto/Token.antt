-- ===== src/Crypto/Token.antt =====
-- core/src/crypto/token.rs: tokens `sha256.HASH.SALT.METHOD.SIGNATURE`, made and checked.
pub mod Parts
pub mod Checks
pub mod RoundTrip
use localsend_uyava.Prelude.{
  ℕ, ℕ-Eq, Text-Eq, zero, suc, ◌+◌, ◌-◌, ◌*◌, ◌/◌, ◌%◌, ◌^◌, List, [], ◌∷◌, ◌++◌, Option, Bool,
  true, false, not, Bytes, Text, ascii, ltb, length, get_elem?, ◌==◌, if◌then◌else◌, Result, ok,
  err, ◌>>=◌,
}

-- What the crates ed25519_dalek, sha2 and base64 give. `signature_from_slice` reads a signature of
-- the right form, `verify` checks it, and base64 is url-safe without padding.
pub record Crypto : Type 1 where
  pub SigningKey : Type 0
  pub VerifyingKey : Type 0
  pub Signature : Type 0
  pub verifying_key : SigningKey → VerifyingKey
  pub to_public_key_der : VerifyingKey → Result Bytes
  pub sign : SigningKey → Bytes → Signature
  pub to_bytes : Signature → Bytes
  pub signature_from_slice : Bytes → Result Signature
  pub verify : VerifyingKey → Bytes → Signature → Result (Unit {0})
  pub sha256 : Bytes → Bytes
  pub encode : Bytes → Text
  pub decode : Text → Result Bytes

-- The trait. `rsa-pss` keys implement it too.
pub record VerifyingTokenKey : Type 0 where
  pub verify : Bytes → Bytes → Result (Unit {0})
  pub to_der : Result Bytes
  pub signature_method : Text

-- A Rust computation that may panic.
pub data Outcome {ℓ} (A : Type ℓ) : Type ℓ where
  value : A → Outcome A
  panic : Outcome A

abbrev pub is_ok {ℓ} : {A : Type ℓ} → Outcome (Result A) → Outcome Bool
is_ok (value (ok a)) = value true
is_ok (value (err e)) = value false
is_ok panic = panic

abbrev pub map_err {ℓ} : {A : Type ℓ} → Text → Result A → Result A
map_err e (ok a) = ok a
map_err e (err _) = err e

abbrev pub dot : ℕ
dot = b'.'

abbrev pub push_head : ℕ → List Text → List Text
push_head c [] = (c ∷ []) ∷ []
push_head c (p ∷ ps) = (c ∷ p) ∷ ps

-- `token.split('.').collect()`
unfoldable pub split : Text → List Text
split [] = [] ∷ []
split (c ∷ s) = let rest = split s in if c == dot then [] ∷ rest else push_head c rest

-- `[public_key.as_bytes(), &salt].concat()`, hashed.
abbrev pub digest_of : (Bytes → Bytes) → Bytes → Bytes → Bytes
digest_of sha256 der salt = sha256 (der ++ salt)

-- `u64::to_le_bytes` and `u64::from_le_bytes`
unfoldable pub to_le_bytes : ℕ → ℕ → Bytes
to_le_bytes zero n = []
to_le_bytes (suc k) n = (n % 256) ∷ to_le_bytes k (n / 256)

unfoldable pub from_le_bytes : Bytes → ℕ
from_le_bytes [] = 0
from_le_bytes (b ∷ bs) = b + 256 * from_le_bytes bs

module _ (c : Crypto) where
  open c use {SigningKey, verifying_key, to_public_key_der, sign, to_bytes, sha256, encode, decode}

  -- `to_verifying_key`, with the implementation of the trait for ed25519.
  unfoldable pub to_verifying_key : SigningKey → VerifyingTokenKey
  to_verifying_key key = record {
    verify = λ msg signature.
        c.signature_from_slice signature >>= λ s. c.verify (verifying_key key) msg s;
    to_der = to_public_key_der (verifying_key key);
    signature_method = ascii "ed25519";
  }

  unfoldable pub generate_token_nonce : SigningKey → Bytes → Result Text
  generate_token_nonce key salt = to_public_key_der (verifying_key key) >>= λ der.
      let digest = digest_of sha256 der salt in
      ok (
        ascii "sha256"
        ++ (dot
            ∷ (encode digest
                ++ (dot
                    ∷ (encode salt
                        ++ (dot
                            ∷ (ascii "ed25519" ++ (dot ∷ encode (to_bytes (sign key digest))))))))))

  -- `now` is `unix_timestamp_u64`.
  unfoldable pub generate_token_timestamp : SigningKey → Result ℕ → Result Text
  generate_token_timestamp key now =
      now >>= λ seconds. generate_token_nonce key (to_le_bytes 8 seconds)

  unfoldable pub extract_signature_identifier : Text → Option Text
  extract_signature_identifier token = get_elem? (split token) 3

  unfoldable pub verify_parts :
      VerifyingTokenKey
      → (Bytes → Result (Unit {0}))
      → Text
      → Text
      → Text
      → Text
      → Text
      → Result (Unit {0})
  verify_parts public_key verify_salt hash_method hash_base64 salt_base64 sign_method
        signature_base64 =
      if not (hash_method == ascii "sha256")
      then err (ascii "Invalid hash method")
      else if not (sign_method == public_key.signature_method)
      then err (ascii "Invalid sign method")
      else (decode salt_base64 >>= λ salt. verify_salt salt >>= λ _. public_key.to_der >>= λ der.
          let digest = digest_of sha256 der salt in
          if not (encode digest == hash_base64)
          then err (ascii "Hash mismatch")
          else (map_err (ascii "Invalid signature base64 encoding") (decode signature_base64)
              >>= λ signature.
                  map_err (ascii "Invalid signature") (public_key.verify digest signature)))

  unfoldable pub check_parts :
      VerifyingTokenKey → (Bytes → Result (Unit {0})) → List Text → Outcome (Result (Unit {0}))
  check_parts public_key verify_salt (p0 ∷ p1 ∷ p2 ∷ p3 ∷ p4 ∷ _) =
      value (verify_parts public_key verify_salt p0 p1 p2 p3 p4)
  check_parts public_key verify_salt _ = panic

  -- `parts[0..5]` panics if there are fewer parts, and drops those behind the fifth.
  unfoldable pub verify_token_with_result :
      VerifyingTokenKey → Text → (Bytes → Result (Unit {0})) → Outcome (Result (Unit {0}))
  unfolding check_parts
  verify_token_with_result public_key token verify_salt =
      check_parts public_key verify_salt (split token)

  unfoldable pub check_nonce : Bytes → Bytes → Result (Unit {0})
  check_nonce nonce salt = if not (salt == nonce) then err (ascii "Invalid nonce") else ok tt

  unfoldable pub verify_token_nonce : VerifyingTokenKey → Text → Bytes → Outcome Bool
  unfolding check_nonce
  verify_token_nonce public_key token nonce =
      is_ok (verify_token_with_result public_key token (check_nonce nonce))

  -- The subtraction of u64 values wraps, as in a release build.
  unfoldable pub check_timestamp : Result ℕ → Bytes → Result (Unit {0})
  check_timestamp now salt =
      if not (length salt == 8)
      then err (ascii "Invalid salt length")
      else (now >>= λ now_seconds.
          if ltb (60 * 60) ((now_seconds + 2 ^ 64 - from_le_bytes salt) % 2 ^ 64)
          then err (ascii "Fingerprint timestamp expired")
          else ok tt)

  unfoldable pub verify_token_timestamp : VerifyingTokenKey → Text → Result ℕ → Outcome Bool
  unfolding check_timestamp
  verify_token_timestamp public_key token now =
      is_ok (verify_token_with_result public_key token (check_timestamp now))
