-- ===== src/Admin/Sessions/IpLockout.antt =====
-- The lockout of a client address, and the bound on its table.
use mirage_chaff.Base.{
  ℕ, ◌≤◌, ◌≡◌, ◌≢◌, subst, le→leb, ◌∙◌, false, List, [], ◌∷◌, none, some, length, leb, arith,
  Option-cases, inl, inr, Bool-cases,
}
use mirage_chaff.Base.Text.{Text}
use mirage_chaff.Base.Int.{ℤ}
use mirage_chaff.Base.Dict.{lookup, text_key, lookup-insert_ne, length-insert_le, length-insert_old}
use mirage_chaff.Admin.Sessions.{
  SessionManager, IpState, new_ip, ip_locked, bump_ip, record_ip_failure, ip_lock_map_max, create,
  get, destroy, destroy_user, record_failure, record_success, new_session_manager,
}

-- The calls that change a session manager.
pub data Call : Type 0 where
  creates : Text → Text → Text → Text → ℕ → Call
  gets : Text → ℕ → Call
  destroys : Text → Call
  destroys_user : Text → Call
  fails : Text → ℕ → Call
  succeeds : Text → Call
  fails_ip : Text → ℕ → Call

unfoldable pub step : SessionManager → Call → SessionManager
step m (creates user role id csrf now) = (create m user role id csrf now).1
step m (gets id now) = (get m id now).1
step m (destroys id) = destroy m id
step m (destroys_user user) = destroy_user m user
step m (fails user now) = record_failure m user now
step m (succeeds user) = record_success m user
step m (fails_ip ip now) = record_ip_failure m ip now

unfoldable pub run : SessionManager → List Call → SessionManager
run m [] = m
run m (c ∷ cs) = run (step m c) cs

abbrev pub IsBounded : SessionManager → Type 0
IsBounded m = length m.ip_locks ≤ ip_lock_map_max

record_ip_failure-IsBounded :
    (m : SessionManager) (ip : Text) (now : ℕ)
    → IsBounded m
    → IsBounded (record_ip_failure m ip now)
unfolding record_ip_failure
record_ip_failure-IsBounded m ip now h = elim (Option-cases (lookup ip m.ip_locks)) [
  | inr (s, e) ↦
      rw (e, record_ip_failure)
        (omega (arith, length-insert_old ip (bump_ip s now) m.ip_locks (λ z. cc)))
  | inl e ↦ elim (Bool-cases (leb ip_lock_map_max (length m.ip_locks))) [
    | inl full ↦ rw (e, record_ip_failure, full) h
    | inr room ↦
        rw (e, record_ip_failure, room)
          (ground (arith, length-insert_le ip (bump_ip new_ip now) m.ip_locks))
  ]
]

step-IsBounded : (m : SessionManager) (c : Call) → IsBounded m → IsBounded (step m c)
unfolding step create get destroy destroy_user record_failure record_success
step-IsBounded m (creates user role id csrf now) h = h
step-IsBounded m (gets id now) h = ground arith
step-IsBounded m (destroys id) h = h
step-IsBounded m (destroys_user user) h = h
step-IsBounded m (fails user now) h = h
step-IsBounded m (succeeds user) h = h
step-IsBounded m (fails_ip ip now) h = record_ip_failure-IsBounded m ip now h

run-IsBounded : (m : SessionManager) (cs : List Call) → IsBounded m → IsBounded (run m cs)
unfolding run
run-IsBounded m [] h = h
run-IsBounded m (c ∷ cs) h = run-IsBounded (step m c) cs (step-IsBounded m c h)

-- No sequence of calls makes the table of addresses larger than its limit of 500.
pub run-new-IsBounded : (idle : ℤ) (cs : List Call) → IsBounded (run (new_session_manager idle) cs)
unfolding new_session_manager
run-new-IsBounded idle cs = run-IsBounded (new_session_manager idle) cs (omega arith)

-- The table is full, and the address is not in it.
pub record IsShutOut (m : SessionManager) (ip : Text) : Type 0 where
  pub full : ip_lock_map_max ≤ length m.ip_locks
  pub absent : lookup ip m.ip_locks ≡ none

record_ip_failure-IsShutOut :
    (m : SessionManager) (ip other : Text) (now : ℕ)
    → IsShutOut m ip
    → IsShutOut (record_ip_failure m other now) ip
unfolding record_ip_failure
record_ip_failure-IsShutOut m ip other now v = elim (Option-cases (lookup other m.ip_locks)) [
  | inl e ↦ rw (e, record_ip_failure, le→leb ip_lock_map_max (length m.ip_locks) v.full) v
  | inr (s, e) ↦
      let differs : other ≢ ip = λ p. none≢some (subst (λ k. lookup k m.ip_locks ≡ some s) p e) in
      rw (e, record_ip_failure)
        (record {
          full =
              omega (arith, v.full, length-insert_old other (bump_ip s now) m.ip_locks (λ z. cc));
          absent = lookup-insert_ne other ip (bump_ip s now) m.ip_locks differs ∙ v.absent;
        })
]
  where
    none≢some : {s : IpState} → lookup ip m.ip_locks ≡ some s → ⊥
    none≢some q = cc (v.absent)

step-IsShutOut :
    (m : SessionManager) (c : Call) (ip : Text) → IsShutOut m ip → IsShutOut (step m c) ip
unfolding step create get destroy destroy_user record_failure record_success
step-IsShutOut m (creates user role id csrf now) ip v = record { full = v.full; absent = v.absent }
step-IsShutOut m (gets id now) ip v = ground arith
step-IsShutOut m (destroys id) ip v = record { full = v.full; absent = v.absent }
step-IsShutOut m (destroys_user user) ip v = record { full = v.full; absent = v.absent }
step-IsShutOut m (fails user now) ip v = record { full = v.full; absent = v.absent }
step-IsShutOut m (succeeds user) ip v = record { full = v.full; absent = v.absent }
step-IsShutOut m (fails_ip other now) ip v = record_ip_failure-IsShutOut m ip other now v

run-IsShutOut :
    (m : SessionManager) (cs : List Call) (ip : Text) → IsShutOut m ip → IsShutOut (run m cs) ip
unfolding run
run-IsShutOut m [] ip v = v
run-IsShutOut m (c ∷ cs) ip v = run-IsShutOut (step m c) cs ip (step-IsShutOut m c ip v)

-- Once the table is full, an address that is not in it is never locked out: not by any number of
-- failed logins, nor after any other calls, since nothing takes an entry out of the table.
pub full_table_never_locks :
    (m : SessionManager) (cs : List Call) (ip : Text) (now : ℕ)
    → IsShutOut m ip
    → ip_locked (run m cs) ip now ≡ false
unfolding ip_locked
full_table_never_locks m cs ip now v = rw ((run-IsShutOut m cs ip v).absent, ip_locked)
