-- ===== src/Crypto/Token/RoundTrip.antt =====
-- The checks of a token on one that was generated.
use native.Mathlib.Nat.{pow-suc}
use localsend_uyava.Prelude.{
  ℕ, ℕ-Eq, Text-Eq, text_eq_iff, zero, suc, ◌+◌, ◌*◌, ◌/◌, ◌^◌, ◌≤◌, ◌<◌, ◌≡◌, refl, sym, ap, ◌∙◌,
  [], ◌∷◌, ◌++◌, some, true, Bytes, Text, ascii, length, ==-refl, Result, ok, >>=-eq-ok, arith,
}
use localsend_uyava.Crypto.Token.{
  Crypto, value, is_ok, dot, digest_of, split, to_le_bytes, from_le_bytes, to_verifying_key,
  generate_token_nonce, generate_token_timestamp, extract_signature_identifier, verify_parts,
  check_parts, verify_token_with_result, check_nonce, verify_token_nonce, check_timestamp,
  verify_token_timestamp,
}
use localsend_uyava.Crypto.Token.Parts.{NoDot, split-NoDot, split-append_dot}

-- What the crates document: a key verifies what it signs, signatures and base64 decode to what was
-- encoded, and the base64 alphabet has no dot.
pub record CryptoLaws (c : Crypto) : Type 0 where
  pub verify-sign :
      (key : c.SigningKey) (msg : Bytes)
      → c.verify (c.verifying_key key) msg (c.sign key msg) ≡ ok tt
  pub signature_from_slice-to_bytes :
      (s : c.Signature) → c.signature_from_slice (c.to_bytes s) ≡ ok s
  pub decode-encode : (b : Bytes) → c.decode (c.encode b) ≡ ok b
  pub encode-NoDot : (b : Bytes) → NoDot (c.encode b)

abbrev token_of : Text → Text → Text → Text
token_of hash salt signature =
    ascii "sha256"
    ++ (dot ∷ (hash ++ (dot ∷ (salt ++ (dot ∷ (ascii "ed25519" ++ (dot ∷ signature)))))))

split-token_of :
    (hash salt signature : Text)
    → NoDot hash
    → NoDot salt
    → NoDot signature
    → split (token_of hash salt signature)
      ≡ ascii "sha256" ∷ hash ∷ salt ∷ ascii "ed25519" ∷ signature ∷ []
split-token_of hash salt signature h s g =
    split-append_dot (ascii "sha256") _ (omega arith)
    ∙ ap (λ r. ascii "sha256" ∷ r)
        (split-append_dot hash _ h
          ∙ ap (λ r. hash ∷ r)
              (split-append_dot salt _ s
                ∙ ap (λ r. salt ∷ r)
                    (split-append_dot (ascii "ed25519") _ (omega arith)
                      ∙ ap (λ r. ascii "ed25519" ∷ r) (split-NoDot signature g))))

module _ (c : Crypto) (laws : CryptoLaws c) (key : c.SigningKey) (salt : Bytes) (token : Text)
    (made : generate_token_nonce c key salt ≡ ok token) where
  abbrev Parts : Bytes → Type 0
  Parts der =
      (c.to_public_key_der (c.verifying_key key) ≡ ok der)
      × (split token
          ≡ ascii "sha256"
            ∷ c.encode (digest_of c.sha256 der salt)
            ∷ c.encode salt
            ∷ ascii "ed25519"
            ∷ c.encode (c.to_bytes (c.sign key (digest_of c.sha256 der salt)))
            ∷ [])

  generated-Parts : (der : Bytes) × Parts der
  unfolding generate_token_nonce
  generated-Parts =
      let (der, key_der, k) = >>=-eq-ok (c.to_public_key_der (c.verifying_key key)) _ made in
      let hash = c.encode (digest_of c.sha256 der salt) in
      let signature = c.encode (c.to_bytes (c.sign key (digest_of c.sha256 der salt))) in
      let written : token_of hash (c.encode salt) signature ≡ token = cc k in
      (
        der,
        (
          key_der,
          sym (ap split written)
              ∙ split-token_of hash (c.encode salt) signature (laws.encode-NoDot _)
                  (laws.encode-NoDot _) (laws.encode-NoDot _),
        ),
      )

  -- The token is accepted by the key's verifying key under every check that accepts its salt.
  verify_generated :
      (check : Bytes → Result (Unit {0}))
      → check salt ≡ ok tt
      → verify_token_with_result c (to_verifying_key c key) token check ≡ value (ok tt)
  unfolding verify_token_with_result to_verifying_key check_parts verify_parts
  verify_generated check passes =
      let (der, (key_der, parts)) = generated-Parts in
      let digest = digest_of c.sha256 der salt in
      rw parts (
        simp (
          laws.decode-encode, passes, key_der, ==-refl, laws.signature_from_slice-to_bytes,
          laws.verify-sign,
        ))

  -- The identifier of a generated token's signature method is found in it.
  pub extract_signature_identifier-generated :
      extract_signature_identifier c token ≡ some (ascii "ed25519")
  unfolding extract_signature_identifier
  extract_signature_identifier-generated = let (der, (key_der, parts)) = generated-Parts in rw parts

-- Under the laws of the crates, a token that is generated for a nonce is accepted for that nonce
-- by the key's public key.
pub verify_token_nonce-generate :
    (c : Crypto) (key : c.SigningKey) (nonce : Bytes) (token : Text)
    → CryptoLaws c
    → generate_token_nonce c key nonce ≡ ok token
    → verify_token_nonce c (to_verifying_key c key) token nonce ≡ value true
unfolding verify_token_nonce check_nonce
verify_token_nonce-generate c key nonce token laws made = ap is_ok (
    verify_generated c laws key nonce token made (check_nonce c nonce)
      (ground (arith, text_eq_iff nonce nonce)))

from_le_bytes-to_le_bytes : (k n : ℕ) → n < 256 ^ k → from_le_bytes (to_le_bytes k n) ≡ n
unfolding from_le_bytes to_le_bytes
from_le_bytes-to_le_bytes zero n h = omega arith
from_le_bytes-to_le_bytes (suc k) n h =
    let below : n < 256 ^ k * 256 = rw pow-suc at h in
    let rest = from_le_bytes-to_le_bytes k (n / 256) (omega arith) in omega (arith, rest)

length-to_le_bytes : (k n : ℕ) → length (to_le_bytes k n) ≡ k
unfolding to_le_bytes
length-to_le_bytes zero n = refl
length-to_le_bytes (suc k) n = ap suc (length-to_le_bytes k (n / 256))

-- Under the laws of the crates, a token that is generated at a time is accepted at each time of
-- the hour that follows, as long as that time is a u64.
pub verify_token_timestamp-generate :
    (c : Crypto) (key : c.SigningKey) (made now : ℕ) (token : Text)
    → CryptoLaws c
    → generate_token_timestamp c key (ok made) ≡ ok token
    → made ≤ now
    → now ≤ made + 3600
    → now < 2 ^ 64
    → verify_token_timestamp c (to_verifying_key c key) token (ok now) ≡ value true
unfolding verify_token_timestamp generate_token_timestamp
verify_token_timestamp-generate c key made now token laws e past recent small = ap is_ok (
    verify_generated c laws key (to_le_bytes 8 made) token e (check_timestamp c (ok now))
      (ground (arith, length-to_le_bytes 8 made, from_le_bytes-to_le_bytes 8 made (omega arith))))
