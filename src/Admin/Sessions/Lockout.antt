-- ===== src/Admin/Sessions/Lockout.antt =====
-- The lockout of an account after failed logins.
use mirage_chaff.Base.{
  ℕ, suc, ◌+◌, ◌≤◌, ◌≡◌, ◌∙◌, ap, refl, ◌%◌, ◌-◌, leb, leb→le, Bool, true, if◌then◌else◌, Option,
  Option-cases, Bool-cases, inl, inr, false, ◌&&◌, List, [], ◌∷◌, none, some, length, ltb, ◌==◌,
  arith,
}
use mirage_chaff.Base.Text.{Text}
use mirage_chaff.Base.Dict.{
  lookup, delete_where, text_key, lookup-insert_self, lookup-delete_where_kept,
  lookup-delete_where-none, delete, lookup-delete, beq_refl,
}
use mirage_chaff.Admin.Sessions.{
  SessionManager, LockState, new_lock, locked, is_stale, bump_lock, record_failure, record_success,
  lock_duration, lock_sweep_age,
}

-- Failed logins of one account, the latest first.
abbrev pub failures : SessionManager → Text → List ℕ → SessionManager
failures m user [] = m
failures m user (t ∷ ts) = record_failure (failures m user ts) user t

-- Each comes at most the sweep age after the one before it.
abbrev pub IsSpaced : List ℕ → Type 0
IsSpaced [] = Unit {0}
IsSpaced (t ∷ []) = Unit {0}
IsSpaced (t ∷ u ∷ ts) = (t ≤ u + lock_sweep_age) × IsSpaced (u ∷ ts)

-- An entry that is fresh, or locked, survives the sweep and is the one that is changed.
record_failure-kept :
    (m : SessionManager) (user : Text) (now : ℕ) (l : LockState)
    → lookup user m.locks ≡ some l
    → is_stale now l ≡ false
    → lookup user (record_failure m user now).locks ≡ some (bump_lock l now)
unfolding record_failure
record_failure-kept m user now l e fresh = rw (
  lookup-delete_where_kept (is_stale now) user m.locks l e fresh,
  lookup-insert_self user (bump_lock l now) (delete_where (is_stale now) m.locks),
)

record_failure-first :
    (m : SessionManager) (user : Text) (now : ℕ)
    → lookup user m.locks ≡ none
    → lookup user (record_failure m user now).locks ≡ some (bump_lock new_lock now)
unfolding record_failure
record_failure-first m user now e = rw (
  lookup-delete_where-none (is_stale now) user m.locks e,
  lookup-insert_self user (bump_lock new_lock now) (delete_where (is_stale now) m.locks),
)

-- The time of the latest failure that completes five, counted from the first of all.
pub latest_fifth : List ℕ → Option ℕ
latest_fifth [] = none
latest_fifth (t ∷ ts) = if length (t ∷ ts) % 5 == 0 then some t else latest_fifth ts

-- Until when a lock holds that was set at a time.
abbrev lock_end : Option ℕ → ℕ
lock_end none = 0
lock_end (some t) = t + lock_duration

-- What is on record after failures of which the latest is at `t`.
abbrev lock_after : ℕ → List ℕ → LockState
lock_after t ts = record {
  failures = length (t ∷ ts) % 5;
  lock_until = lock_end (latest_fifth (t ∷ ts));
  last_seen = t;
}

bump_lock-first : (t : ℕ) → bump_lock new_lock t ≡ lock_after t []
unfolding bump_lock latest_fifth
bump_lock-first t = refl

bump_lock-count :
    (n t u : ℕ) (o : Option ℕ)
    → bump_lock (record { failures = n % 5; lock_until = lock_end o; last_seen = u }) t ≡ record {
      failures = suc n % 5;
      lock_until = lock_end (if suc n % 5 == 0 then some t else o);
      last_seen = t;
    }
unfolding bump_lock
bump_lock-count n t u o = elim (Bool-cases (leb 5 (n % 5 + 1))) [
  | inl y ↦
      let z : suc n % 5 ≡ 0 = omega (arith, leb→le 5 (n % 5 + 1) y) in rw (bump_lock, y, z) refl
  | inr y ↦
      let z : suc n % 5 ≡ n % 5 + 1 = ground (arith, y) in
      let b : (n % 5 + 1 == 0) ≡ false = ground arith in rw (bump_lock, y, z, b) refl
]

bump_lock-after : (t u : ℕ) (ts : List ℕ) → bump_lock (lock_after u ts) t ≡ lock_after t (u ∷ ts)
unfolding latest_fifth
bump_lock-after t u ts = bump_lock-count (length (u ∷ ts)) t u (latest_fifth (u ∷ ts))

lock_after-fresh :
    (t u : ℕ) (ts : List ℕ) → t ≤ u + lock_sweep_age → is_stale t (lock_after u ts) ≡ false
unfolding is_stale
lock_after-fresh t u ts h =
    let young : ltb lock_sweep_age (t - u) ≡ false = ground (arith, h) in
    and-false (lock_end (latest_fifth (u ∷ ts)) == 0) _ young
  where
    and-false : (b c : Bool) → c ≡ false → (b && c) ≡ false
    and-false true c e = e
    and-false false c e = refl

failures-record :
    (m : SessionManager) (user : Text) (t : ℕ) (ts : List ℕ)
    → lookup user m.locks ≡ none
    → IsSpaced (t ∷ ts)
    → lookup user (failures m user (t ∷ ts)).locks ≡ some (lock_after t ts)
failures-record m user t [] e sp = record_failure-first m user t e ∙ ap some (bump_lock-first t)
failures-record m user t (u ∷ ts) e sp =
    record_failure-kept (failures m user (u ∷ ts)) user t (lock_after u ts)
      (failures-record m user u ts e sp.1) (lock_after-fresh t u ts sp.0)
    ∙ ap some (bump_lock-after t u ts)

-- Failed logins of an account in a row, none more than half an hour after the one before, and nothing on
-- record for the account before the first: each fifth of them, and no other, locks the account, for
-- five minutes after it; behind a lock the count starts again.
pub failures_lock :
    (m : SessionManager) (user : Text) (t : ℕ) (ts : List ℕ) (now : ℕ)
    → lookup user m.locks ≡ none
    → IsSpaced (t ∷ ts)
    → locked (failures m user (t ∷ ts)) user now
      ≡ elim (latest_fifth (t ∷ ts)) [ none ↦ false | some u ↦ ltb now (u + lock_duration) ]
unfolding locked
failures_lock m user t ts now e sp = elim (Option-cases (latest_fifth (t ∷ ts))) [
  | inl f ↦ rw (locked, failures-record m user t ts e sp, f) (ground arith)
  | inr (u, f) ↦ rw (locked, failures-record m user t ts e sp, f) refl
]

-- A successful login ends the lock and forgets the failures.
pub record_success_unlocks :
    (m : SessionManager) (user : Text) (now : ℕ)
    → (locked (record_success m user) user now ≡ false)
      × (lookup user (record_success m user).locks ≡ none)
unfolding locked record_success
record_success_unlocks m user now =
    let gone : lookup user (delete user m.locks) ≡ none =
      rw (lookup-delete user user m.locks, beq_refl {K = Text} user) refl in
    (rw (gone, locked), gone)
