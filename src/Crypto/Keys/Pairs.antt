-- ===== src/Crypto/Keys/Pairs.antt =====
-- What a generated pair of keys is good for, and which keys are parsed.
pub mod Tests
use localsend_uyava.Prelude.{
  Text-Eq, text_eq, ◌≡◌, refl, sym, ◌∙◌, ap, true, Bytes, Text, ascii, ok, ◌>>=◌, >>=-eq-ok,
  if◌then◌else◌,
}
use localsend_uyava.Crypto.Token.{
  Crypto, VerifyingTokenKey, to_verifying_key, value, generate_token_nonce, verify_token_nonce,
}
use localsend_uyava.Crypto.Token.RoundTrip.{CryptoLaws, verify_token_nonce-generate}
use localsend_uyava.Crypto.Keys.{
  KeyFormats, KeyPair, generate_key_pair, parse_private_key, parse_public_key, export_private_key,
  export_public_key,
}

-- What is printed as PEM is read back.
pub record KeyLaws (c : Crypto) (keys : KeyFormats c) : Type 0 where
  pub from_pkcs8_pem-to_pkcs8_pem :
      (key : c.SigningKey) (pem : Text)
      → keys.to_pkcs8_pem key ≡ ok pem
      → keys.from_pkcs8_pem pem ≡ ok key
  pub from_public_key_pem-to_public_key_pem :
      (key : c.VerifyingKey) (pem : Text)
      → keys.to_public_key_pem key ≡ ok pem
      → keys.from_public_key_pem pem ≡ ok key

module _ (c : Crypto) (keys : KeyFormats c) where
  parse_public_key-export :
      (laws : KeyLaws c keys) (key : c.SigningKey) (pem : Text)
      → export_public_key c keys key ≡ ok pem
      → parse_public_key c keys pem (ascii "ed25519") ≡ ok (to_verifying_key c key)
  unfolding parse_public_key to_verifying_key export_public_key text_eq
  parse_public_key-export laws key pem h =
      rw (laws.from_public_key_pem-to_public_key_pem (c.verifying_key key) pem h) refl

  -- Under the laws of the crates, a generated pair of keys works: if a token is made for a nonce
  -- with what its private key is parsed to, then its public key can be parsed as an ed25519 key,
  -- and the token is accepted with it.
  pub generate_key_pair_lem :
      (signing_key : c.SigningKey) (pair : KeyPair) (nonce : Bytes) (token : Text)
      → CryptoLaws c
      → KeyLaws c keys
      → generate_key_pair c keys signing_key ≡ ok pair
      → (parse_private_key c keys pair.private_key >>= λ key. generate_token_nonce c key nonce)
        ≡ ok token
      → (public_key : VerifyingTokenKey) × (parse_public_key c keys pair.public_key
            (ascii "ed25519")
          ≡ ok public_key)
        × (verify_token_nonce c public_key token nonce ≡ value true)
  unfolding generate_key_pair parse_private_key export_private_key
  generate_key_pair_lem signing_key pair nonce token laws key_laws made generated =
      let (private_key, exported, next) =
        >>=-eq-ok (export_private_key c keys signing_key) _ made in
      let (public_key, exported', last) = >>=-eq-ok (export_public_key c keys signing_key) _ next in
      let same : (record { private_key = private_key; public_key = public_key }) ≡ pair = cc last in
      (
        to_verifying_key c signing_key,
        ap (λ p. parse_public_key c keys p.public_key (ascii "ed25519")) (sym same)
            ∙ parse_public_key-export key_laws signing_key public_key exported',
        verify_token_nonce-generate c signing_key nonce token laws (
            ap (λ r. r >>= λ key. generate_token_nonce c key nonce)
              (sym (
                ap (λ p. keys.from_pkcs8_pem p.private_key) (sym same)
                ∙ key_laws.from_pkcs8_pem-to_pkcs8_pem signing_key private_key exported))
            ∙ generated),
      )
