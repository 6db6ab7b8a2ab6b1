-- ===== src/Crypto/Cert/Checks.antt =====
-- What a certificate that passes the checks of core/src/crypto/cert.rs is.
use localsend_uyava.Prelude.{
  ◌≡◌, ◌↔◌, refl, Option, none, some, Bool, true, false, not, Bytes, Text, ascii, Result, ok, err,
  if◌then◌else◌, >>=-eq-ok,
}
use localsend_uyava.Crypto.Cert.{X509, verify_key, verify_cert_from_cert, public_key_from_cert}

pub guard-eq-ok : (b : Bool) (e : Text) → (if not b then err e else ok tt) ≡ ok (tt {0}) → b ≡ true
guard-eq-ok true e h = refl
guard-eq-ok false e h = cc

pub guarded-eq-ok :
    (b : Bool) (e : Text) (r : Result (Unit {0}))
    → (if not b then err e else r) ≡ ok tt
    → (b ≡ true) × (r ≡ ok tt)
guarded-eq-ok true e r h = (refl, h)
guarded-eq-ok false e r h = cc

module _ (x : X509) where
  -- The PEM text holds the certificate's key.
  abbrev pub Matches : x.Certificate → Text → Type 0
  Matches cert public_key =
      (key : x.PublicKey) × (contents : Bytes) × (spki : x.Spki) × (expected : x.PublicKey)
      × (x.parsed (x.subject_pki cert) ≡ ok key)
      × (x.pem_read public_key ≡ ok contents)
      × (x.spki_from_der contents ≡ ok spki)
      × (x.parsed spki ≡ ok expected)
      × (x.key_eq key expected ≡ true)

  abbrev pub MatchesIfAsked : x.Certificate → Option Text → Type 0
  MatchesIfAsked cert none = Unit
  MatchesIfAsked cert (some public_key) = Matches cert public_key

  verify_key_sound :
      (cert : x.Certificate) (public_key : Option Text)
      → verify_key x cert public_key ≡ ok tt
      → MatchesIfAsked cert public_key
  unfolding verify_key
  verify_key_sound cert none h = tt
  verify_key_sound cert (some public_key) h =
      let (key, own, h1) = >>=-eq-ok (x.parsed (x.subject_pki cert)) _ h in
      let (contents, read, h2) = >>=-eq-ok (x.pem_read public_key) _ h1 in
      let (spki, form, h3) = >>=-eq-ok (x.spki_from_der contents) _ h2 in
      let (expected, given, h4) = >>=-eq-ok (x.parsed spki) _ h3 in
      (key, contents, spki, expected, own, read, form, given, guard-eq-ok _ _ h4)

  verify_key_complete :
      (cert : x.Certificate) (public_key : Option Text)
      → MatchesIfAsked cert public_key
      → verify_key x cert public_key ≡ ok tt
  unfolding verify_key
  verify_key_complete cert none h = refl
  verify_key_complete cert (some public_key)
        (key, contents, spki, expected, own, read, form, given, same) =
      rw (own, read, form, given, same) refl

  -- A certificate passes exactly if it is valid now, its signature is that of its own key, and,
  -- where a public key is given, the PEM text of that key is read to a key that equals its own.
  pub verify_cert_from_cert_iff :
      (cert : x.Certificate) (public_key : Option Text)
      → (verify_cert_from_cert x cert public_key ≡ ok tt) ↔ (
          (x.is_valid cert ≡ true)
          × MatchesIfAsked cert public_key
          × (x.verify_signature cert ≡ ok tt))
  unfolding verify_cert_from_cert
  verify_cert_from_cert_iff cert public_key = (sound, complete)
    where
      Good : Type 0
      Good =
          (x.is_valid cert ≡ true)
          × MatchesIfAsked cert public_key
          × (x.verify_signature cert ≡ ok tt)

      sound : verify_cert_from_cert x cert public_key ≡ ok tt → Good
      sound h =
          let (valid, h1) = guarded-eq-ok (x.is_valid cert) _ _ h in
          let (u, keyed, signed) = >>=-eq-ok (verify_key x cert public_key) _ h1 in
          (valid, verify_key_sound cert public_key keyed, signed)

      complete : Good → verify_cert_from_cert x cert public_key ≡ ok tt
      complete (valid, keyed, signed) =
          rw (valid, verify_key_complete cert public_key keyed, signed) refl

  -- What PEM and DER encoding promise.
  pub record EncodesKeys : Type 0 where
    pub pem_read-pem_encode :
        (label : Text) (contents : Bytes) → x.pem_read (x.pem_encode label contents) ≡ ok contents
    pub spki_from_der-raw : (spki : x.Spki) → x.spki_from_der (x.raw spki) ≡ ok spki
    pub key_eq_refl : (key : x.PublicKey) → x.key_eq key key ≡ true

  -- If PEM and DER can be read back and keys equal themselves, the key that is taken out of a
  -- certificate is accepted for it, if it can be parsed: with it, the check is the check without
  -- any.
  verify_cert_from_cert-public_key_from_cert :
      (cert : x.Certificate) (public_key : Text) (key : x.PublicKey)
      → EncodesKeys
      → public_key_from_cert x cert ≡ ok public_key
      → x.parsed (x.subject_pki cert) ≡ ok key
      → verify_cert_from_cert x cert (some public_key) ≡ verify_cert_from_cert x cert none
  unfolding verify_cert_from_cert verify_key public_key_from_cert
  verify_cert_from_cert-public_key_from_cert cert public_key key laws taken own =
      let e : x.pem_encode (ascii "PUBLIC KEY") (x.raw (x.subject_pki cert)) ≡ public_key = cc in
      rw
        (
          ← e,
          own,
          laws.pem_read-pem_encode (ascii "PUBLIC KEY") (x.raw (x.subject_pki cert)),
          laws.spki_from_der-raw (x.subject_pki cert),
          own,
          laws.key_eq_refl key,
        )
        refl
