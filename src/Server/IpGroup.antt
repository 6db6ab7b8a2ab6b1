-- ===== src/Server/IpGroup.antt =====
-- server/src/util/ip.rs: the group of an address, by which the server's rooms and quotas go.
pub mod Digits
pub mod Apart
mod Tests
use localsend_uyava.Prelude.{
  ℕ, zero, suc, ◌+◌, ◌-◌, ◌/◌, ◌%◌, [], ◌∷◌, ◌++◌, Text, ltb, if◌then◌else◌,
}

-- `std::net::IpAddr`: four bytes, or eight segments of 16 bits.
pub data IpAddr : Type 0 where
  v4 : ℕ → ℕ → ℕ → ℕ → IpAddr
  v6 : ℕ → ℕ → ℕ → ℕ → ℕ → ℕ → ℕ → ℕ → IpAddr

-- A digit in lower case.
unfoldable pub digit : ℕ → ℕ
digit n = if ltb n 10 then b'0' + n else b'a' + (n - 10)

-- A number of at most `fuel` digits, without leading zeros: `{}` for base 10, `{:x}` for base 16.
unfoldable pub print : ℕ → ℕ → ℕ → Text
unfolding digit
print base zero n = []
print base (suc fuel) n =
    let rest = print base fuel (n / base) in
    if ltb n base then digit n ∷ [] else rest ++ digit (n % base) ∷ []

unfoldable pub get_ip_group : IpAddr → Text
unfolding print
get_ip_group (v4 a b c d) =
    print 10 3 a ++ (b'.' ∷ (print 10 3 b ++ (b'.' ∷ (print 10 3 c ++ (b'.' ∷ print 10 3 d)))))
get_ip_group (v6 a b c d _ _ _ _) =
    print 16 4 a ++ (b':' ∷ (print 16 4 b ++ (b':' ∷ (print 16 4 c ++ (b':' ∷ print 16 4 d)))))
