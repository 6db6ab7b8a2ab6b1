-- ===== src/Server/IpGroup/Apart.antt =====
-- Which addresses share a group.
use localsend_uyava.Prelude.{◌^◌, ◌<◌, ◌≡◌, ◌↔◌, refl, arith}
use localsend_uyava.Server.IpGroup.{IpAddr, v4, v6, print, get_ip_group}
use localsend_uyava.Server.IpGroup.Digits.{
  separated, dot_ends, colon_ends, decimal_injective, hex_injective, decimal-IsDigit, hex-IsDigit,
}

-- The bytes and segments have their widths.
abbrev pub InRange : IpAddr → Type 0
InRange (v4 a b c d) = (a < 256) × (b < 256) × (c < 256) × (d < 256)
InRange (v6 a b c d e f g h) = (a < 2 ^ 16) × (b < 2 ^ 16) × (c < 2 ^ 16) × (d < 2 ^ 16)

-- The same IPv4 address, or IPv6 addresses with the first 64 bits in common.
abbrev pub SameGroup : IpAddr → IpAddr → Type 0
SameGroup (v4 a b c d) (v4 a' b' c' d') = (a ≡ a') × (b ≡ b') × (c ≡ c') × (d ≡ d')
SameGroup (v6 a b c d _ _ _ _) (v6 a' b' c' d' _ _ _ _) = (a ≡ a') × (b ≡ b') × (c ≡ c') × (d ≡ d')
SameGroup _ _ = ⊥

get_ip_group_sound :
    (x y : IpAddr) → InRange x → InRange y → get_ip_group x ≡ get_ip_group y → SameGroup x y
unfolding get_ip_group
get_ip_group_sound (v4 a b c d) (v4 a' b' c' d') (p, q, r, s) (p', q', r', s') e =
    let (e1, _, f) =
      separated (print 10 3 a) (print 10 3 a') _ _ b'.' b'.' (decimal-IsDigit a)
        (decimal-IsDigit a') dot_ends dot_ends e in
    let (e2, _, g) =
      separated (print 10 3 b) (print 10 3 b') _ _ b'.' b'.' (decimal-IsDigit b)
        (decimal-IsDigit b') dot_ends dot_ends f in
    let (e3, _, e4) =
      separated (print 10 3 c) (print 10 3 c') _ _ b'.' b'.' (decimal-IsDigit c)
        (decimal-IsDigit c') dot_ends dot_ends g in
    (
      decimal_injective a a' p p' e1,
      decimal_injective b b' q q' e2,
      decimal_injective c c' r r' e3,
      decimal_injective d d' s s' e4,
    )
get_ip_group_sound (v6 a b c d _ _ _ _) (v6 a' b' c' d' _ _ _ _) (p, q, r, s) (p', q', r', s') e =
    let (e1, _, f) =
      separated (print 16 4 a) (print 16 4 a') _ _ b':' b':' (hex-IsDigit a) (hex-IsDigit a')
        colon_ends colon_ends e in
    let (e2, _, g) =
      separated (print 16 4 b) (print 16 4 b') _ _ b':' b':' (hex-IsDigit b) (hex-IsDigit b')
        colon_ends colon_ends f in
    let (e3, _, e4) =
      separated (print 16 4 c) (print 16 4 c') _ _ b':' b':' (hex-IsDigit c) (hex-IsDigit c')
        colon_ends colon_ends g in
    (
      hex_injective a a' p p' e1,
      hex_injective b b' q q' e2,
      hex_injective c c' r r' e3,
      hex_injective d d' s s' e4,
    )
get_ip_group_sound (v4 a b c d) (v6 a' b' c' d' _ _ _ _) h k e =
    let (_, sep, _) =
      separated (print 10 3 a) (print 16 4 a') _ _ b'.' b':' (decimal-IsDigit a) (hex-IsDigit a')
        dot_ends colon_ends e in
    absurd (omega (arith, sep))
get_ip_group_sound (v6 a b c d _ _ _ _) (v4 a' b' c' d') h k e =
    let (_, sep, _) =
      separated (print 16 4 a) (print 10 3 a') _ _ b':' b'.' (hex-IsDigit a) (decimal-IsDigit a')
        colon_ends dot_ends e in
    absurd (omega (arith, sep))

get_ip_group_complete : (x y : IpAddr) → SameGroup x y → get_ip_group x ≡ get_ip_group y
unfolding get_ip_group
get_ip_group_complete (v4 a b c d) (v4 a' b' c' d') (p, q, r, s) = rw (p, q, r, s) refl
get_ip_group_complete (v6 a b c d _ _ _ _) (v6 a' b' c' d' _ _ _ _) (p, q, r, s) =
    rw (p, q, r, s) refl
get_ip_group_complete (v4 a b c d) (v6 a' b' c' d' _ _ _ _) h = absurd h
get_ip_group_complete (v6 a b c d _ _ _ _) (v4 a' b' c' d') h = absurd h

-- Two addresses, of bytes or of segments of 16 bits, have one group exactly if they are the same
-- IPv4 address, or IPv6 addresses whose first four segments are the same.
pub get_ip_group_iff :
    (x y : IpAddr) → InRange x → InRange y → (get_ip_group x ≡ get_ip_group y) ↔ SameGroup x y
get_ip_group_iff x y h k = (get_ip_group_sound x y h k, get_ip_group_complete x y)
