-- ===== src/Server/IpGroup/Tests.antt =====
-- Two addresses of one network behind IPv6, on which the theorem about groups is tried.
use localsend_uyava.Prelude.{◌≡◌, ◌↔◌, arith}
use localsend_uyava.Server.IpGroup.{IpAddr, v6, get_ip_group}
use localsend_uyava.Server.IpGroup.Apart.{InRange, SameGroup, get_ip_group_iff}

abbrev laptop : IpAddr
laptop = v6 8193 3512 0 1 0 0 0 17

abbrev phone : IpAddr
phone = v6 8193 3512 0 1 0 0 0 34

laptop-InRange : InRange laptop
laptop-InRange = (omega arith, omega arith, omega arith, omega arith)

phone-InRange : InRange phone
phone-InRange = (omega arith, omega arith, omega arith, omega arith)

get_ip_group_iff_example : (get_ip_group laptop ≡ get_ip_group phone) ↔ SameGroup laptop phone
get_ip_group_iff_example = get_ip_group_iff laptop phone laptop-InRange phone-InRange
