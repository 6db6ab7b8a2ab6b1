-- ===== src/Crypto/Keys/Pairs/Tests.antt =====
-- A pair of toy keys.
use localsend_uyava.Prelude.{
  true, ℕ, ◌≡◌, refl, [], ◌∷◌, Bytes, Text, ascii, Text-Eq, Result, ok, err, arith,
}
use localsend_uyava.Crypto.Token.{
  VerifyingTokenKey, value, generate_token_nonce, verify_token_nonce,
}
use localsend_uyava.Crypto.Toy.{toy, toy-CryptoLaws}
use localsend_uyava.Crypto.Keys.{
  KeyFormats, KeyPair, generate_key_pair, parse_private_key, parse_public_key,
}
use localsend_uyava.Crypto.Keys.Pairs.{KeyLaws, generate_key_pair_lem}

-- A PEM text is the number of the key.
abbrev read_key : Text → Result ℕ
read_key [] = err (ascii "empty")
read_key (k ∷ rest) = ok k

abbrev pub formats : KeyFormats toy
formats = record {
  RsaPublicKey = ℕ;
  to_pkcs8_pem = λ k. ok (k ∷ []);
  from_pkcs8_pem = read_key;
  to_public_key_pem = λ k. ok (k ∷ []);
  from_public_key_pem = read_key;
  rsa_from_public_key_pem = read_key;
  rsa_signature_from_slice = λ b. ok b;
  rsa_verify = λ k m s. err (ascii "no");
  rsa_to_public_key_der = λ k. ok (k ∷ []);
}

pub formats-KeyLaws : KeyLaws toy formats
formats-KeyLaws = record {
  from_pkcs8_pem-to_pkcs8_pem = λ key pem e. ground (arith, e);
  from_public_key_pem-to_public_key_pem = λ key pem e. ground (arith, e);
}

abbrev pair : KeyPair
pair = record { private_key = 5 ∷ []; public_key = 5 ∷ [] }

abbrev nonce : Bytes
nonce = 1 ∷ 2 ∷ []

made : (token : Text) × (generate_token_nonce toy 5 nonce ≡ ok token)
unfolding generate_token_nonce
made = (_, refl)

generate_key_pair_example :
    (public_key : VerifyingTokenKey) × (parse_public_key toy formats (5 ∷ []) (ascii "ed25519")
      ≡ ok public_key)
    × (verify_token_nonce toy public_key made.0 nonce ≡ value true)
unfolding generate_key_pair parse_private_key
generate_key_pair_example =
    generate_key_pair_lem toy formats 5 pair nonce made.0 toy-CryptoLaws formats-KeyLaws refl made.1
