-- ===== src/Crypto/Keys.antt =====
-- core/src/crypto/token.rs: the two kinds of keys that verify tokens, and keys as PEM texts; and
-- what app/rust/src/api/crypto.rs makes of them.
pub mod Pairs
use localsend_uyava.Prelude.{
  Text-Eq, ◌==◌, some, Bytes, Text, ascii, Result, err, ok, ◌>>=◌, if◌then◌else◌,
}
use localsend_uyava.Crypto.Token.{Crypto, VerifyingTokenKey}
use localsend_uyava.Crypto.Cert.{X509, verify_cert_from_pem}

-- The PEM formats of the crate ed25519_dalek, and the keys of the crate rsa: `rsa_verify` reads the
-- signature too.
pub record KeyFormats (c : Crypto) : Type 1 where
  pub RsaPublicKey : Type 0
  pub to_pkcs8_pem : c.SigningKey → Result Text
  pub from_pkcs8_pem : Text → Result c.SigningKey
  pub to_public_key_pem : c.VerifyingKey → Result Text
  pub from_public_key_pem : Text → Result c.VerifyingKey
  pub rsa_from_public_key_pem : Text → Result RsaPublicKey
  pub rsa_signature_from_slice : Bytes → Result Bytes
  pub rsa_verify : RsaPublicKey → Bytes → Bytes → Result (Unit {0})
  pub rsa_to_public_key_der : RsaPublicKey → Result Bytes

-- `KeyPair`
pub record KeyPair : Type 0 where
  pub private_key : Text
  pub public_key : Text

module _ (c : Crypto) where
  -- `impl VerifyingTokenKey for Ed25519VerifyingKey`
  unfoldable pub ed25519_key : c.VerifyingKey → VerifyingTokenKey
  ed25519_key inner = record {
    verify = λ msg signature. c.signature_from_slice signature >>= λ s. c.verify inner msg s;
    to_der = c.to_public_key_der inner;
    signature_method = ascii "ed25519";
  }

  module _ (keys : KeyFormats c) where
    -- `impl VerifyingTokenKey for RsaPssVerifyingKey`
    unfoldable pub rsa_pss_key : keys.RsaPublicKey → VerifyingTokenKey
    rsa_pss_key inner = record {
      verify = λ msg signature.
          keys.rsa_signature_from_slice signature >>= λ s. keys.rsa_verify inner msg s;
      to_der = keys.rsa_to_public_key_der inner;
      signature_method = ascii "rsa-pss";
    }

    unfoldable pub export_private_key : c.SigningKey → Result Text
    export_private_key key = keys.to_pkcs8_pem key

    unfoldable pub parse_private_key : Text → Result c.SigningKey
    parse_private_key private_key = keys.from_pkcs8_pem private_key

    unfoldable pub export_public_key : c.SigningKey → Result Text
    export_public_key key = keys.to_public_key_pem (c.verifying_key key)

    unfoldable pub parse_public_key : Text → Text → Result VerifyingTokenKey
    unfolding ed25519_key rsa_pss_key
    parse_public_key public_key identifier =
        if identifier == ascii "ed25519"
        then (keys.from_public_key_pem public_key >>= λ k. ok (ed25519_key k))
        else if identifier == ascii "rsa-pss"
        then (keys.rsa_from_public_key_pem public_key >>= λ k. ok (rsa_pss_key k))
        else err (ascii "Unsupported key type")

    -- `signing_key` is what `generate_key` gives.
    unfoldable pub generate_key_pair : c.SigningKey → Result KeyPair
    unfolding export_private_key export_public_key
    generate_key_pair signing_key = export_private_key signing_key >>= λ private_key.
        export_public_key signing_key >>= λ public_key.
        ok (record { private_key = private_key; public_key = public_key })

-- The application's `verify_cert`: the certificate's key has to be the given one.
unfoldable pub verify_cert : X509 → Text → Text → Result (Unit {0})
verify_cert x cert public_key = verify_cert_from_pem x cert (some public_key)
