-- ===== src/Crypto/Cert.antt =====
-- core/src/crypto/cert.rs: the checks of a certificate.
pub mod Checks
use localsend_uyava.Prelude.{
  Option, none, some, Bool, not, Bytes, Text, ascii, if◌then◌else◌, Result, ok, err, ◌>>=◌,
}

-- What the crates x509_parser and pem give. `pem_read` gives the contents of the first block of a
-- PEM text, `parsed` the key that a SubjectPublicKeyInfo holds, and `raw` its DER.
pub record X509 : Type 1 where
  pub Certificate : Type 0
  pub Spki : Type 0
  pub PublicKey : Type 0
  pub pem_read : Text → Result Bytes
  pub pem_encode : Text → Bytes → Text
  pub from_der : Bytes → Result Certificate
  pub spki_from_der : Bytes → Result Spki
  pub subject_pki : Certificate → Spki
  pub raw : Spki → Bytes
  pub parsed : Spki → Result PublicKey
  pub key_eq : PublicKey → PublicKey → Bool
  pub is_valid : Certificate → Bool
  pub verify_signature : Certificate → Result (Unit {0})

module _ (x : X509) where
  open x use {Certificate}

  -- The public key is compared only if one is given.
  unfoldable pub verify_key : Certificate → Option Text → Result (Unit {0})
  verify_key cert none = ok tt
  verify_key cert (some public_key) = x.parsed (x.subject_pki cert) >>= λ cert_public_key.
      x.pem_read public_key >>= λ contents. x.spki_from_der contents >>= λ spki.
      x.parsed spki >>= λ expected.
      if not (x.key_eq cert_public_key expected) then err (ascii "Public key mismatch") else ok tt

  unfoldable pub verify_cert_from_cert : Certificate → Option Text → Result (Unit {0})
  unfolding verify_key
  verify_cert_from_cert cert public_key =
      if not (x.is_valid cert)
      then err (ascii "Time validity error")
      else (verify_key cert public_key >>= λ _. x.verify_signature cert)

  unfoldable pub verify_cert_from_pem : Text → Option Text → Result (Unit {0})
  verify_cert_from_pem cert public_key = x.pem_read cert >>= λ contents.
      x.from_der contents >>= λ parsed_cert. verify_cert_from_cert parsed_cert public_key

  unfoldable pub verify_cert_from_der : Bytes → Option Text → Result (Unit {0})
  verify_cert_from_der cert public_key =
      x.from_der cert >>= λ parsed_cert. verify_cert_from_cert parsed_cert public_key

  unfoldable pub public_key_from_cert : Certificate → Result Text
  public_key_from_cert cert = ok (x.pem_encode (ascii "PUBLIC KEY") (x.raw (x.subject_pki cert)))

  unfoldable pub public_key_from_cert_pem : Text → Result Text
  unfolding public_key_from_cert
  public_key_from_cert_pem cert = x.pem_read cert >>= λ contents.
      x.from_der contents >>= λ parsed_cert. public_key_from_cert parsed_cert

  unfoldable pub public_key_from_cert_der : Bytes → Result Text
  unfolding public_key_from_cert
  public_key_from_cert_der cert =
      x.from_der cert >>= λ parsed_cert. public_key_from_cert parsed_cert

  -- core/src/http/server/client_cert_verifier.rs: any certificate that is valid is let in.
  unfoldable pub verify_client_cert : Bytes → Result (Unit {0})
  unfolding verify_cert_from_der
  verify_client_cert cert = elim (verify_cert_from_der cert none) [
    | ok u ↦ ok tt
    | err e ↦ err (ascii "ApplicationVerificationFailure")
  ]
