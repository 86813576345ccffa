-- ===== src/Server/Breaker/Invariant.antt =====
-- What holds of the breaker after any sequence of calls.
use mirage_chaff.Base.{
  ℕ, ◌<◌, ◌≡◌, ◌≢◌, true, List, [], ◌∷◌, Option, none, some, ltb, ◌==◌, arith, Option-cases, inl,
  inr, Bool-cases,
}
use mirage_chaff.Base.Text.{Text}
use mirage_chaff.Base.Int.{ℤ, positive_or-pos}
use mirage_chaff.Base.Dict.{lookup, text_key, lookup-insert, lookup-insert_self, lookup-insert_ne}
use mirage_chaff.Server.Breaker.{
  Breaker, BreakerState, closed_state, put, allow, record_success, fail_state, record_failure,
  new_breaker, default_threshold, default_cooldown,
}

-- The calls that change the breaker, for a domain, at a time.
pub data Call : Type 0 where
  allows : Text → ℕ → Call
  succeeds : Text → Call
  fails : Text → ℕ → Call

abbrev pub domain_of : Call → Text
domain_of (allows d now) = d
domain_of (succeeds d) = d
domain_of (fails d now) = d

unfoldable pub step : Breaker → Call → Breaker
step b (allows d now) = (allow b d now).1
step b (succeeds d) = record_success b d
step b (fails d now) = record_failure b d now

unfoldable pub run : Breaker → List Call → Breaker
run b [] = b
run b (c ∷ cs) = run (step b c) cs

-- A closed entry has counted fewer failures than the threshold.
abbrev pub IsCounting : Breaker → Option BreakerState → Type 0
IsCounting b none = Unit {0}
IsCounting b (some s) = s.open_until ≡ 0 → s.failures < b.threshold

pub record IsValid (b : Breaker) : Type 0 where
  pub threshold_pos : 0 < b.threshold
  pub cooldown_pos : 0 < b.cooldown
  pub counting : (d : Text) → IsCounting b (lookup d b.state)

new_breaker-IsValid : (threshold cooldown : ℤ) → IsValid (new_breaker threshold cooldown)
unfolding new_breaker lookup
new_breaker-IsValid threshold cooldown = record {
  threshold_pos = positive_or-pos threshold default_threshold (omega arith);
  cooldown_pos = positive_or-pos cooldown default_cooldown (omega arith);
  counting = λ d. tt;
}

-- Writing one entry that counts.
put-IsValid :
    (b : Breaker) (domain : Text) (s : BreakerState)
    → IsValid b
    → (s.open_until ≡ 0 → s.failures < b.threshold)
    → IsValid (put b domain s)
put-IsValid b domain s v h = record {
  threshold_pos = v.threshold_pos;
  cooldown_pos = v.cooldown_pos;
  counting = λ d. elim (Bool-cases (text_key.beq domain d)) [
    | inl e ↦ rw (lookup-insert domain d s b.state, e) h
    | inr e ↦ rw (lookup-insert domain d s b.state, e) (v.counting d)
  ];
}

fail_state-counting :
    (b : Breaker) (s : BreakerState) (now : ℕ)
    → 0 < b.cooldown
    → ((fail_state b s now).open_until ≡ 0 → (fail_state b s now).failures < b.threshold)
unfolding fail_state
fail_state-counting b s now h = ground arith

pub step-IsValid : (b : Breaker) (c : Call) → IsValid b → IsValid (step b c)
unfolding step allow record_success record_failure
step-IsValid b (allows d now) v = elim (Option-cases (lookup d b.state)) [
  | inl e ↦ rw (e, step, allow) v
  | inr (s, e) ↦ elim (Bool-cases (s.open_until == 0)) [
    | inl z ↦ rw (e, step, allow, z) v
    | inr z ↦ elim (Bool-cases (ltb now s.open_until)) [
      | inl w ↦ rw (e, step, allow, z, w) v
      | inr w ↦ rw (e, step, allow, z, w) (put-IsValid b d closed_state v (λ _. v.threshold_pos))
    ]
  ]
]
step-IsValid b (succeeds d) v = elim (Option-cases (lookup d b.state)) [
  | inl e ↦ rw (e, step, record_success) v
  | inr (s, e) ↦
      rw (e, step, record_success) (put-IsValid b d closed_state v (λ _. v.threshold_pos))
]
step-IsValid b (fails d now) v = elim (Option-cases (lookup d b.state)) [
  | inl e ↦
      rw (e, step, record_failure)
        (put-IsValid b d _ v (fail_state-counting b closed_state now v.cooldown_pos))
  | inr (s, e) ↦
      rw (e, step, record_failure)
        (put-IsValid b d _ v (fail_state-counting b s now v.cooldown_pos))
]

run-IsValid : (b : Breaker) (cs : List Call) → IsValid b → IsValid (run b cs)
unfolding run
run-IsValid b [] v = v
run-IsValid b (c ∷ cs) v = run-IsValid (step b c) cs (step-IsValid b c v)

-- Whatever the settings and the calls, a domain whose breaker is closed has fewer failures on
-- record than the threshold: no run of calls passes the threshold without opening.
pub run-new_breaker-IsValid :
    (threshold cooldown : ℤ) (cs : List Call) → IsValid (run (new_breaker threshold cooldown) cs)
run-new_breaker-IsValid threshold cooldown cs =
    run-IsValid _ cs (new_breaker-IsValid threshold cooldown)

put_other :
    (b : Breaker) (d other : Text) (s : BreakerState)
    → d ≢ other
    → lookup other (put b d s).state ≡ lookup other b.state
put_other b d other s ne = lookup-insert_ne d other s b.state ne

lookup-step_other :
    (b : Breaker) (c : Call) (other : Text)
    → domain_of c ≢ other
    → lookup other (step b c).state ≡ lookup other b.state
unfolding step allow record_success record_failure
lookup-step_other b (allows d now) other ne = ground (arith, put_other b d other closed_state ne)
lookup-step_other b (succeeds d) other ne = ground (arith, put_other b d other closed_state ne)
lookup-step_other b (fails d now) other ne = elim (Option-cases (lookup d b.state)) [
  | inl e ↦ rw (e, step, record_failure) (put_other b d other (fail_state b closed_state now) ne)
  | inr (s, e) ↦ rw (e, step, record_failure) (put_other b d other (fail_state b s now) ne)
]

allow-lookup :
    (a b : Breaker) (d : Text) (now : ℕ)
    → lookup d a.state ≡ lookup d b.state
    → (allow a d now).0 ≡ (allow b d now).0
unfolding allow
allow-lookup a b d now e = ground arith

-- No call for one domain changes what is on record for another, or what it is answered.
pub step_other :
    (b : Breaker) (c : Call) (other : Text) (now : ℕ)
    → domain_of c ≢ other
    → (lookup other (step b c).state ≡ lookup other b.state)
      × ((allow (step b c) other now).0 ≡ (allow b other now).0)
step_other b c other now ne =
    let same : lookup other (step b c).state ≡ lookup other b.state =
      lookup-step_other b c other ne in
    (same, allow-lookup (step b c) b other now same)

-- Once a request is let through, every later one is, until a failure is recorded: the breaker does
-- not hold the others back while a probe is under way.
pub allow_twice :
    (b : Breaker) (d : Text) (now later : ℕ)
    → (allow b d now).0 ≡ true
    → allow (allow b d now).1 d later ≡ (true, (allow b d now).1)
unfolding allow
allow_twice b d now later h = ground (arith, lookup-insert_self d closed_state b.state)
