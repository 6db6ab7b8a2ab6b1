-- ===== src/Server/Bounds.antt =====
-- What every handler of the signaling server keeps: one entry for a key in each map, and the two
-- limits of the environment.
pub mod Handlers
use localsend_uyava.Prelude.{
  ℕ-Eq, Text-Eq, ◌≡◌, inl, inr, ◌≤◌, ◌<◌, ◌+◌, ◌%◌, ◌^◌, ℕ, not, ◌&&◌, Text, leb, length, ◌==◌,
  text_eq_iff, if◌then◌else◌, arith, Bool-cases,
}
use localsend_uyava.Prelude.Dict.{get, insert, Distinct, Distinct-insert, get-insert}
use localsend_uyava.Server.State.{
  Limits, Room, TxMap, IpRequestCountMap, AppState, new, room, count, protect_ddos_request_count,
}
use localsend_uyava.Server.Members.{room-insert}

-- A room has one entry for a peer and no more peers than the limit.
abbrev pub Fits : Limits → Room → Type 0
Fits limits r = Distinct r × (length r ≤ limits.max_connections)

pub record IsSound (limits : Limits) (s : AppState) : Type 0 where
  pub groups : Distinct s.tx_map
  pub counters : Distinct s.request_count_map
  pub rooms : (g : Text) → Fits limits (room g s.tx_map)
  pub counts : (g : Text) → count g s.request_count_map ≤ limits.max_requests

pub count-insert :
    (g h : Text) (n : ℕ) (m : IpRequestCountMap)
    → count h (insert g n m) ≡ (if g == h then n else count h m)
unfolding count
count-insert g h n m = ground (arith, get-insert g h n m)

-- For a limit below 2^32 that the group's count does not exceed, the quota lets a request through
-- exactly below the limit, and then the group's count, and no other, grows by one.
pub protect_ddos_request_count_lem :
    (max : ℕ) (m : IpRequestCountMap) (g h : Text)
    → max < 2 ^ 32
    → count g m ≤ max
    → let (m', ok) = protect_ddos_request_count max m g in
      (count h m' ≡ (if (g == h) && ok then count h m + 1 else count h m))
      × (ok ≡ not (leb max (count g m)))
unfolding protect_ddos_request_count
protect_ddos_request_count_lem max m g h fits below = ground (
  arith,
  text_eq_iff g h,
  count-insert g h (count g m) m,
  count-insert g h ((count g m + 1) % 2 ^ 32) m,
)

pub new-IsSound : (limits : Limits) → IsSound limits new
unfolding new room count get
new-IsSound limits = record {
  groups = tt;
  counters = tt;
  rooms = λ g. (tt, omega arith);
  counts = λ g. omega arith;
}

pub charge-counts :
    (max : ℕ) (m : IpRequestCountMap) (g h : Text)
    → max < 2 ^ 32
    → count g m ≤ max
    → count h m ≤ max
    → count h (protect_ddos_request_count max m g).0 ≤ max
unfolding protect_ddos_request_count
charge-counts max m g h fits below k = ground (
  arith,
  text_eq_iff g h,
  count-insert g h (count g m) m,
  count-insert g h ((count g m + 1) % 2 ^ 32) m,
)

pub charge-Distinct :
    (max : ℕ) (m : IpRequestCountMap) (g : Text)
    → Distinct m
    → Distinct (protect_ddos_request_count max m g).0
unfolding protect_ddos_request_count
charge-Distinct max m g d =
    ground
      (arith, Distinct-insert g (count g m) m d, Distinct-insert g ((count g m + 1) % 2 ^ 32) m d)

pub Fits-insert :
    (limits : Limits) (g h : Text) (r : Room) (m : TxMap)
    → Fits limits r
    → Fits limits (room h m)
    → Fits limits (room h (insert g r m))
Fits-insert limits g h r m fits old =
    rw (room-insert g h r m) (elim (Bool-cases (g == h)) [ inl e ↦ rw e fits | inr e ↦ rw e old ])
