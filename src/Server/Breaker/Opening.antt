-- ===== src/Server/Breaker/Opening.antt =====
-- When the breaker opens, how long it stays open, and what ends it.
use mirage_chaff.Base.{
  ℕ, ◌+◌, ◌<◌, ◌≡◌, refl, true, not, List, [], ◌∷◌, none, some, length, ltb, arith,
}
use mirage_chaff.Base.Text.{Text}
use mirage_chaff.Base.Dict.{lookup, text_key, lookup-insert_self}
use mirage_chaff.Server.Breaker.{
  Breaker, BreakerState, closed_state, allow, fail_state, record_failure, is_open,
}

-- Failures of one domain, one after the other.
abbrev pub fails : Breaker → Text → List ℕ → Breaker
fails b domain [] = b
fails b domain (t ∷ ts) = record_failure (fails b domain ts) domain t

-- The breaker's state for a domain; one that it has no entry for is closed.
abbrev pub state_of : Breaker → Text → BreakerState
state_of b domain = elim (lookup domain b.state) [ none ↦ closed_state | some s ↦ s ]

record_failure-settings :
    (b : Breaker) (domain : Text) (t : ℕ)
    → ((record_failure b domain t).threshold ≡ b.threshold)
      × ((record_failure b domain t).cooldown ≡ b.cooldown)
unfolding record_failure
record_failure-settings b domain t = ground arith

record_failure-state :
    (b : Breaker) (domain : Text) (t : ℕ)
    → lookup domain (record_failure b domain t).state ≡ some (fail_state b (state_of b domain) t)
unfolding record_failure
record_failure-state b domain t = ground (
  arith,
  lookup-insert_self domain (fail_state b closed_state t) b.state,
  lookup-insert_self domain (fail_state b (state_of b domain) t) b.state,
)

fails-settings :
    (b : Breaker) (domain : Text) (ts : List ℕ)
    → ((fails b domain ts).threshold ≡ b.threshold) × ((fails b domain ts).cooldown ≡ b.cooldown)
fails-settings b domain [] = (refl, refl)
fails-settings b domain (t ∷ ts) =
    ground (arith, record_failure-settings (fails b domain ts) domain t, fails-settings b domain ts)

-- Below the threshold the failures are only counted.
fails-below :
    (b : Breaker) (domain : Text) (ts : List ℕ)
    → state_of b domain ≡ closed_state
    → length ts < b.threshold
    → state_of (fails b domain ts) domain ≡ record { failures = length ts; open_until = 0 }
unfolding fail_state
fails-below b domain [] c h = c
fails-below b domain (t ∷ ts) c h = ground (
  arith,
  record_failure-state (fails b domain ts) domain t,
  fails-settings b domain ts,
  fails-below b domain ts c,
)

-- The failure that reaches the threshold opens the breaker for the cooldown.
fails-at :
    (b : Breaker) (domain : Text) (t : ℕ) (ts : List ℕ)
    → state_of b domain ≡ closed_state
    → length (t ∷ ts) ≡ b.threshold
    → lookup domain (fails b domain (t ∷ ts)).state
      ≡ some (record { failures = b.threshold; open_until = t + b.cooldown })
unfolding fail_state
fails-at b domain t ts c h = ground (
  arith,
  record_failure-state (fails b domain ts) domain t,
  fails-settings b domain ts,
  fails-below b domain ts c,
)

-- From a closed breaker, fewer failures of a domain in a row than the threshold refuse nothing.
pub fails_allowed :
    (b : Breaker) (domain : Text) (ts : List ℕ) (now : ℕ)
    → state_of b domain ≡ closed_state
    → length ts < b.threshold
    → allow (fails b domain ts) domain now ≡ (true, fails b domain ts)
unfolding allow
fails_allowed b domain ts now c h = ground (arith, fails-below b domain ts c)

-- As many as the threshold, the last at `t`: until `t` plus the cooldown every request for the
-- domain is refused and the breaker shows as open; from then on one is let through.
pub fails_refused :
    (b : Breaker) (domain : Text) (t : ℕ) (ts : List ℕ) (now : ℕ)
    → state_of b domain ≡ closed_state
    → length (t ∷ ts) ≡ b.threshold
    → 0 < b.cooldown
    → ((allow (fails b domain (t ∷ ts)) domain now).0 ≡ not (ltb now (t + b.cooldown)))
      × (is_open (fails b domain (t ∷ ts)) domain now ≡ ltb now (t + b.cooldown))
unfolding allow is_open
fails_refused b domain t ts now c h pos = ground (arith, fails-at b domain t ts c h)
