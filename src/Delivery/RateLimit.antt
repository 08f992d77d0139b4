-- ===== src/Delivery/RateLimit.antt =====
-- RateLimit of internal/middleware/ratelimit.go. `show` prints a number, `trim` is strings.TrimSpace,
-- `first` what stands before the first comma of a text, and `host` the host of an address, if
-- net.SplitHostPort accepts it. A counter outlives its minute, and no request asks for it after that:
-- that it expires is left out.
pub mod Passed
use chis.Base.{
  ℕ, suc, ◌+◌, String, Bool, true, false, not, Option, none, some, ◌==◌, leb, truthy, if◌then◌else◌,
}
use chis.Base.Text.{concat}
use Prim.Native.Nat.{◌/◌}

-- The counters of Redis.
abbrev pub Counters : Type 0
Counters = String → ℕ

-- `rl:%s:%d`, of the address and the minute
unfoldable pub key_of : (ℕ → String) → String → ℕ → String
key_of show ip seconds = concat "rl:" (concat ip (concat ":" (show (seconds / 60))))

-- INCR
unfoldable pub incr : String → Counters → Counters
incr key c k = if k == key then suc (c k) else c k

-- What becomes of a request, if Redis answers or not: the counters, and whether it is passed on.
unfoldable pub rate_limit : Bool → String → Counters → Counters × Bool
rate_limit answered key c =
    if answered then (incr key c, not (leb 101 (incr key c key))) else (c, true)

-- The headers and the address of a request; a missing header is empty.
pub record Origin : Type 0 where
  pub forwarded_for : String
  pub real_ip : String
  pub remote_addr : String

module _ (trim first : String → String) (host : String → Option String) where
  abbrev remote : Origin → String
  remote o =
      if truthy o.real_ip
      then trim o.real_ip
      else elim (host o.remote_addr) [ none ↦ o.remote_addr | some h ↦ h ]

  unfoldable pub extract_ip : Origin → String
  extract_ip o =
      if truthy o.forwarded_for
      then if truthy (trim (first o.forwarded_for)) then trim (first o.forwarded_for) else remote o
      else remote o
