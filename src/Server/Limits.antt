-- ===== src/Server/Limits.antt =====
-- internal/server/limits.go: the token bucket, its tokens in float64 as in the source. The product and
-- the sum of `Allow` are rounded one after the other, as Go compiles them where the machine has no
-- fused operation that it uses (amd64). The clock is Go's monotonic one: `now.Sub(l.last)` is not
-- negative.
use mirage_chaff.Base.{
  ℕ, zero, suc, ◌-◌, ◌/◌, ◌%◌, Bool, true, false, Option, none, some, leb, ltb, if◌then◌else◌,
}
use mirage_chaff.Base.Int.{ℤ, pos, negsuc}
use mirage_chaff.Base.Float.{Float, one, of_nat, add, sub, mul, div}

pub record RateLimiter : Type 0 where
  pub rate : Float
  pub burst : Float
  pub tokens : Float
  pub last : ℕ

-- No limiter, that is no limit, for a rate of 0 or less.
unfoldable pub new_rate_limiter : ℤ → ℕ → Option RateLimiter
new_rate_limiter (pos zero) now = none
new_rate_limiter (negsuc n) now = none
new_rate_limiter (pos (suc n)) now =
    let r = of_nat (suc n) in some (record { rate = r; burst = r; tokens = r; last = now })

-- `Duration.Seconds` of nanoseconds.
unfoldable pub seconds : ℕ → Float
seconds d =
    add (of_nat (d / 1_000_000_000)) (div (of_nat (d % 1_000_000_000)) (of_nat 1_000_000_000))

-- The tokens with those that have come since `last`, cut at the burst.
unfoldable pub refill : RateLimiter → ℕ → Float
refill l now =
    let sum = add l.tokens (mul (seconds (now - l.last)) l.rate) in
    if ltb l.burst sum then l.burst else sum

-- `Allow` on a limiter that is not nil.
unfoldable pub take_token : RateLimiter → ℕ → Bool × RateLimiter
take_token l now =
    let filled = refill l now in
    if leb one filled
    then (true, record l { tokens = sub filled one; last = now })
    else (false, record l { tokens = filled; last = now })

-- `Allow`; a nil limiter always allows.
unfoldable pub allow_request : Option RateLimiter → ℕ → Bool × Option RateLimiter
allow_request none now = (true, none)
allow_request (some l) now = let (ok, l') = take_token l now in (ok, some l')
