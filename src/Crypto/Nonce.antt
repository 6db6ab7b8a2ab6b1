-- ===== src/Crypto/Nonce.antt =====
-- core/src/crypto/nonce.rs. The random bytes of `generate_nonce` come from the crate rand.
use localsend_uyava.Prelude.{◌≤◌, ◌≡◌, Bool, true, ◌&&◌, ◌↔◌, Bytes, leb, length, arith}

unfoldable pub validate_nonce : Bytes → Bool
validate_nonce nonce = leb 16 (length nonce) && leb (length nonce) 128

-- A nonce passes exactly if it has 16 to 128 bytes.
pub validate_nonce_iff :
    (nonce : Bytes) → (validate_nonce nonce ≡ true) ↔ ((16 ≤ length nonce) × (length nonce ≤ 128))
unfolding validate_nonce
validate_nonce_iff nonce = ground arith
