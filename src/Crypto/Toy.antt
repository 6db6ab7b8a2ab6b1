-- ===== src/Crypto/Toy.antt =====
-- A toy instance of the crates that tokens are made with.
use localsend_uyava.Prelude.{
  ap, ==-refl, ℕ, ℕ-Eq, Text-Eq, ◌+◌, ◌-◌, ◌≡◌, refl, arith, [], ◌∷◌, map, Bytes, Text, ◌==◌,
  if◌then◌else◌, Result, ok, err,
}
use localsend_uyava.Crypto.Token.{Crypto}
use localsend_uyava.Crypto.Token.Parts.{NoDot}
use localsend_uyava.Crypto.Token.RoundTrip.{CryptoLaws}

-- Keys are numbers, a signature is the message behind the key, and the encoding moves each byte
-- past the dot.
abbrev pub toy_with : (Text → Result Bytes) → Crypto
toy_with decode = record {
  SigningKey = ℕ;
  VerifyingKey = ℕ;
  Signature = Bytes;
  verifying_key = λ k. k;
  to_public_key_der = λ k. ok (k ∷ []);
  sign = λ k m. k ∷ m;
  to_bytes = λ s. s;
  signature_from_slice = λ b. ok b;
  verify = λ k m s. if s == (k ∷ m) then ok tt else err [];
  sha256 = λ b. b;
  encode = map (λ n. n + 47);
  decode = decode;
}

abbrev pub toy : Crypto
toy = toy_with (λ t. ok (map (λ n. n - 47) t))

pub decode-encode_toy : (b : Bytes) → map (λ n. n - 47) (map (λ n. n + 47) b) ≡ b
decode-encode_toy [] = refl
decode-encode_toy (x ∷ b) = ground (arith, decode-encode_toy b)

encode-NoDot_toy : (b : Bytes) → NoDot (map (λ n. n + 47) b)
encode-NoDot_toy [] = tt
encode-NoDot_toy (x ∷ b) = (omega arith, encode-NoDot_toy b)

pub toy-CryptoLaws : CryptoLaws toy
toy-CryptoLaws = record {
  verify-sign = λ k m. rw (==-refl (k ∷ m));
  signature_from_slice-to_bytes = λ s. refl;
  decode-encode = λ b. ap ok (decode-encode_toy b);
  encode-NoDot = encode-NoDot_toy;
}
