-- ===== src/Server/Breaker.antt =====
-- internal/server/breaker.go: the circuit breaker. A time is nanoseconds after Go's zero time, so
-- that 0 is `IsZero`; the clock's reading is an argument. The state that a map entry points to is
-- changed in place, under the lock: an `insert` at the same key.
pub mod Opening
pub mod Invariant
use mirage_chaff.Base.{
  ℕ, ◌+◌, Bool, true, false, not, ◌&&◌, Option, none, some, leb, ltb, ◌==◌, if◌then◌else◌, [],
}
use mirage_chaff.Base.Text.{Text}
use mirage_chaff.Base.Dict.{Dict, lookup, insert, text_key}
use mirage_chaff.Base.Int.{ℤ, positive_or}

pub record BreakerState : Type 0 where
  pub failures : ℕ
  pub open_until : ℕ

pub record Breaker : Type 0 where
  pub threshold : ℕ
  pub cooldown : ℕ
  pub state : Dict Text BreakerState

abbrev pub default_threshold : ℕ
default_threshold = 5

abbrev pub default_cooldown : ℕ
default_cooldown = 30_000_000_000

unfoldable pub new_breaker : ℤ → ℤ → Breaker
new_breaker threshold cooldown = record {
  threshold = positive_or threshold default_threshold;
  cooldown = positive_or cooldown default_cooldown;
  state = [];
}

abbrev pub closed_state : BreakerState
closed_state = record { failures = 0; open_until = 0 }

abbrev pub put : Breaker → Text → BreakerState → Breaker
put b domain s = record b { state = insert domain s b.state }

-- `Allow`, with the breaker that it leaves.
unfoldable pub allow : Breaker → Text → ℕ → Bool × Breaker
allow b domain now = elim (lookup domain b.state) [
  | none ↦ (true, b)
  | some s ↦
      if s.open_until == 0
      then (true, b)
      else if ltb now s.open_until
      then (false, b)
      else (true, put b domain closed_state)
]

unfoldable pub record_success : Breaker → Text → Breaker
record_success b domain = elim (lookup domain b.state) [
  | none ↦ b
  | some s ↦ put b domain closed_state
]

-- One failure more, and the opening of a closed breaker at the threshold.
unfoldable pub fail_state : Breaker → BreakerState → ℕ → BreakerState
fail_state b s now =
    if leb b.threshold (s.failures + 1) && (s.open_until == 0)
    then record { failures = s.failures + 1; open_until = now + b.cooldown }
    else record { failures = s.failures + 1; open_until = s.open_until }

unfoldable pub record_failure : Breaker → Text → ℕ → Breaker
record_failure b domain now = elim (lookup domain b.state) [
  | none ↦ put b domain (fail_state b closed_state now)
  | some s ↦ put b domain (fail_state b s now)
]

-- `Open`
unfoldable pub is_open : Breaker → Text → ℕ → Bool
is_open b domain now = elim (lookup domain b.state) [
  | none ↦ false
  | some s ↦ not (s.open_until == 0) && ltb now s.open_until
]
