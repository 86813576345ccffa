-- ===== src/Server/Examples.antt =====
-- A breaker and a limiter at work.
use mirage_chaff.Base.{
  ℕ, zero, suc, ◌+◌, ◌-◌, ◌*◌, ◌≤◌, ◌<◌, ◌≡◌, ◌≢◌, refl, Bool, true, false, not, List, [], ◌∷◌,
  Option, none, some, length, ltb, replicate, arith,
}
use mirage_chaff.Base.Text.{Text, codes}
use mirage_chaff.Base.Dict.{lookup, text_key}
use mirage_chaff.Base.Int.{pos}
use mirage_chaff.Server.Breaker.{Breaker, allow}
use mirage_chaff.Server.Breaker.Invariant.{allow_twice}
use mirage_chaff.Server.Limits.{RateLimiter, new_rate_limiter, seconds, refill, take_token}
use mirage_chaff.Base.Float.{one, of_nat, add, sub, mul, div, rounded, nearest, exponent}

abbrev a : Text
a = codes "a.example"

abbrev two : Breaker
two = record { threshold = 2; cooldown = 10; state = [] }

-- Open until 15.
abbrev opened : Breaker
opened = record two { state = (a, record { failures = 2; open_until = 15 }) ∷ [] }

probe : (allow opened a 15).0 ≡ true
unfolding allow lookup mirage_chaff.Base.Text.text_eq
probe = refl

allow_twice_example : allow (allow opened a 15).1 a 15 ≡ (true, (allow opened a 15).1)
allow_twice_example = allow_twice opened a 15 15 probe

-- Two requests a second: both tokens are taken, and a little more than half a second brings the next.
abbrev limiter : RateLimiter
limiter = record { rate = 2 * one; burst = 2 * one; tokens = 2 * one; last = 7 }

new_limiter : new_rate_limiter (pos 2) 7 ≡ some limiter
unfolding new_rate_limiter of_nat rounded nearest exponent
new_limiter = refl

-- The requests at these times that the limiter lets through.
unfoldable admissions : RateLimiter → List ℕ → List Bool
admissions l [] = []
admissions l (t ∷ ts) = let (ok, l') = take_token l t in ok ∷ admissions l' ts

limiter-admissions :
    admissions limiter (8 ∷ 8 ∷ 9 ∷ 500_000_010 ∷ []) ≡ true ∷ true ∷ false ∷ true ∷ []
unfolding admissions take_token refill seconds add sub mul div of_nat rounded nearest exponent
limiter-admissions = refl
