-- ===== src/Crypto/Token/Checks.antt =====
-- The checks of a token that accept it.
use mathlib.Core.Path.{subst}
use native.Mathlib.Nat.{pow-suc}
use localsend_uyava.Prelude.{
  All, ℕ, ℕ-Eq, Text-Eq, text_eq_iff, ◌+◌, ◌^◌, ◌≤◌, ◌<◌, ◌≡◌, refl, List, [], ◌∷◌, true, not,
  Bytes, Text, ascii, length, ◌==◌, if◌then◌else◌, Result, ok, err, ◌>>=◌, >>=-eq-ok, arith,
  Bool-cases, inl, inr,
}
use localsend_uyava.Crypto.Token.{
  Crypto, VerifyingTokenKey, Outcome, value, panic, is_ok, map_err, digest_of, split, from_le_bytes,
  verify_parts, check_parts, verify_token_with_result, check_nonce, verify_token_nonce,
  check_timestamp, verify_token_timestamp,
}

-- The token's parts fit the key and the salt: the hash is that of the key and the salt, and the
-- key verifies the signature of the hash.
pub record IsProof (c : Crypto) (key : VerifyingTokenKey) (token : Text) (salt : Bytes)
    : Type 0 where
  pub hash_base64 : Text
  pub salt_base64 : Text
  pub signature_base64 : Text
  pub more : List Text
  pub der : Bytes
  pub signature : Bytes
  pub structure :
      split token
      ≡ ascii "sha256" ∷ hash_base64 ∷ salt_base64 ∷ key.signature_method ∷ signature_base64 ∷ more
  pub key_der : key.to_der ≡ ok der
  pub salted : c.decode salt_base64 ≡ ok salt
  pub hashed : c.encode (digest_of c.sha256 der salt) ≡ hash_base64
  pub signed : c.decode signature_base64 ≡ ok signature
  pub verified : key.verify (digest_of c.sha256 der salt) signature ≡ ok tt

map_err-eq-ok : {A : Type 0} (e : Text) (m : Result A) {a : A} → map_err e m ≡ ok a → m ≡ ok a
map_err-eq-ok e (ok a) h = h
map_err-eq-ok e (err x) h = cc

module _ (c : Crypto) (key : VerifyingTokenKey) (check : Bytes → Result (Unit {0})) where
  digest_checked :
      (der salt p1 p4 : Text)
      → (let digest = digest_of c.sha256 der salt in
          if not (c.encode digest == p1)
          then err (ascii "Hash mismatch")
          else (map_err (ascii "Invalid signature base64 encoding") (c.decode p4) >>= λ signature.
              map_err (ascii "Invalid signature") (key.verify digest signature)))
        ≡ ok tt
      → (signature : Bytes) × (c.encode (digest_of c.sha256 der salt) ≡ p1)
        × (c.decode p4 ≡ ok signature)
        × (key.verify (digest_of c.sha256 der salt) signature ≡ ok tt)
  digest_checked der salt p1 p4 h =
      elim (Bool-cases (c.encode (digest_of c.sha256 der salt) == p1)) [
        | inr a ↦ ground (arith, a, h)
        | inl a ↦
            let k = rw a at h in
            let (signature, signed, k1) =
              >>=-eq-ok (map_err (ascii "Invalid signature base64 encoding") (c.decode p4)) _ k in
            (
              signature,
              (text_eq_iff (c.encode (digest_of c.sha256 der salt)) p1).0 a,
              map_err-eq-ok _ (c.decode p4) signed,
              map_err-eq-ok _ (key.verify (digest_of c.sha256 der salt) signature) k1,
            )
      ]

  verify_parts_sound :
      (token p0 p1 p2 p3 p4 : Text) (more : List Text)
      → split token ≡ p0 ∷ p1 ∷ p2 ∷ p3 ∷ p4 ∷ more
      → verify_parts c key check p0 p1 p2 p3 p4 ≡ ok tt
      → (salt : Bytes) × (check salt ≡ ok tt) × IsProof c key token salt
  unfolding verify_parts
  verify_parts_sound token p0 p1 p2 p3 p4 more e h = elim (Bool-cases (p0 == ascii "sha256")) [
    | inr a ↦ ground (arith, a, h)
    | inl a ↦ elim (Bool-cases (p3 == key.signature_method)) [
      | inr b ↦ ground (arith, a, b, h)
      | inl b ↦
          let k = rw (a, b) at h in
          let (salt, salted, k1) = >>=-eq-ok (c.decode p2) _ k in
          let (u, checked, k2) = >>=-eq-ok (check salt) _ k1 in
          let (der, key_der, k3) = >>=-eq-ok key.to_der _ k2 in
          let (signature, hashed, signed, verified) = digest_checked der salt p1 p4 k3 in
          (
            salt,
            checked,
            record {
              hash_base64 = p1;
              salt_base64 = p2;
              signature_base64 = p4;
              more = more;
              der = der;
              signature = signature;
              structure = cc (
                (text_eq_iff p0 (ascii "sha256")).0 a,
                (text_eq_iff p3 key.signature_method).0 b,
                e,
              );
              key_der = key_der;
              salted = salted;
              hashed = hashed;
              signed = signed;
              verified = verified;
            },
          )
    ]
  ]

  check_parts_sound :
      (token : Text) (ps : List Text)
      → split token ≡ ps
      → check_parts c key check ps ≡ value (ok tt)
      → (salt : Bytes) × (check salt ≡ ok tt) × IsProof c key token salt
  unfolding check_parts
  check_parts_sound token (p0 ∷ p1 ∷ p2 ∷ p3 ∷ p4 ∷ more) e h =
      verify_parts_sound token p0 p1 p2 p3 p4 more e (cc h)
  check_parts_sound token [] e h = cc
  check_parts_sound token (a ∷ []) e h = cc
  check_parts_sound token (a ∷ b ∷ []) e h = cc
  check_parts_sound token (a ∷ b ∷ d ∷ []) e h = cc
  check_parts_sound token (a ∷ b ∷ d ∷ g ∷ []) e h = cc

  -- A token that the check accepts is a proof for a salt that the salt's own check accepts.
  verify_token_with_result_sound :
      (token : Text)
      → is_ok (verify_token_with_result c key token check) ≡ value true
      → (salt : Bytes) × (check salt ≡ ok tt) × IsProof c key token salt
  unfolding verify_token_with_result
  verify_token_with_result_sound token h =
      check_parts_sound token (split token) refl
        (accepted (check_parts c key check (split token)) h)
    where
      accepted : (o : Outcome (Result (Unit {0}))) → is_ok o ≡ value true → o ≡ value (ok tt)
      accepted (value (ok u)) h = refl
      accepted (value (err e)) h = ground (arith, h)
      accepted panic h = cc

-- If a token is accepted for a nonce, it holds the hash of the key's DER form and the nonce, and
-- the key verifies its signature of that hash.
pub verify_token_nonce_sound :
    (c : Crypto) (key : VerifyingTokenKey) (token : Text) (nonce : Bytes)
    → verify_token_nonce c key token nonce ≡ value true
    → IsProof c key token nonce
unfolding verify_token_nonce
verify_token_nonce_sound c key token nonce h =
    let (salt, same, proof) = verify_token_with_result_sound c key (check_nonce c nonce) token h in
    subst (IsProof c key token) (salt_of nonce salt same) proof
  where
    salt_of : (nonce salt : Bytes) → check_nonce c nonce salt ≡ ok tt → salt ≡ nonce
    salt_of nonce salt e = ground (arith, text_eq_iff salt nonce, e)

from_le_bytes-lt : (bs : Bytes) → All (λ b. b < 256) bs → from_le_bytes bs < 256 ^ length bs
unfolding from_le_bytes
from_le_bytes-lt [] h = omega arith
from_le_bytes-lt (b ∷ bs) (p, h) =
    rw (pow-suc 256 (length bs)) (omega (arith, from_le_bytes-lt bs h))

check_timestamp_sound :
    (c : Crypto) (salt : Bytes) (now : ℕ)
    → 3600 ≤ now
    → now < 2 ^ 64
    → from_le_bytes salt < 256 ^ length salt
    → check_timestamp c (ok now) salt ≡ ok tt
    → (length salt ≡ 8) × (from_le_bytes salt ≤ now) × (now ≤ from_le_bytes salt + 3600)
unfolding check_timestamp
check_timestamp_sound c salt now late small range h = elim (Bool-cases (length salt == 8)) [
  | inr e ↦ ground (arith, e, h)
  | inl e ↦
      let eight : length salt ≡ 8 = ground (arith, e) in
      let below : from_le_bytes salt < 2 ^ 64 = rw eight at range in ground (arith, e, h, below)
]

-- If a token is accepted by its time, at a u64 time past the first hour of 1970, and base64
-- decodes to bytes, then it is a proof for a salt of eight bytes whose time is not in the future
-- and at most an hour old.
pub verify_token_timestamp_sound :
    (c : Crypto) (key : VerifyingTokenKey) (token : Text) (now : ℕ)
    → 3600 ≤ now
    → now < 2 ^ 64
    → ((text : Text) (bytes : Bytes) → c.decode text ≡ ok bytes → All (λ b. b < 256) bytes)
    → verify_token_timestamp c key token (ok now) ≡ value true
    → (salt : Bytes) × IsProof c key token salt
      × (length salt ≡ 8)
      × (from_le_bytes salt ≤ now)
      × (now ≤ from_le_bytes salt + 3600)
unfolding verify_token_timestamp
verify_token_timestamp_sound c key token now late small bytes h =
    let (salt, passed, proof) =
      verify_token_with_result_sound c key (check_timestamp c (ok now)) token h in
    let range = from_le_bytes-lt salt (bytes proof.salt_base64 salt proof.salted) in
    let (eight, past, recent) = check_timestamp_sound c salt now late small range passed in
    (salt, proof, eight, past, recent)
