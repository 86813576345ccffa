-- ===== src/Admin/Examples.antt =====
-- Sessions and lockouts on concrete accounts and addresses.
use mirage_chaff.Base.{
  ℕ, zero, suc, ◌+◌, ◌≤◌, ◌<◌, ◌≡◌, ◌≢◌, refl, Bool, true, false, ◌&&◌, List, [], ◌∷◌, Option, none,
  some, length, ltb, ◌==◌, arith,
}
use mirage_chaff.Base.Text.{Text, codes}
use mirage_chaff.Base.Dict.{Dict, lookup, text_key}
use mirage_chaff.Admin.Sessions.{
  SessionManager, Session, IpState, create, get, destroy_user, locked, record_success, ip_locked,
  lock_duration,
}
use mirage_chaff.Admin.Sessions.Expiry.{visits}
use mirage_chaff.Admin.Sessions.Lockout.{
  failures, latest_fifth, failures_lock, record_success_unlocks,
}
use mirage_chaff.Admin.Sessions.IpLockout.{
  Call, fails_ip, succeeds, run, IsShutOut, full_table_never_locks,
}

abbrev manager : SessionManager
manager = record { idle_timeout = 30; sessions = []; locks = []; ip_locks = [] }

abbrev bob : Text
bob = codes "bob"

abbrev used : SessionManager
used =
    visits (create manager bob (codes "admin") (codes "id") (codes "t") 100).1 (codes "id")
      (110 ∷ 130 ∷ [])

abbrev amy : Session
amy = record {
  id = codes "x";
  username = codes "amy";
  role = codes "viewer";
  csrf = codes "t";
  expires = 50;
}

abbrev with_amy : SessionManager
with_amy = record manager { sessions = (codes "x", amy) ∷ [] }

amy_stays : (get (destroy_user with_amy bob) (codes "x") 40).0 ≡ some (record amy { expires = 70 })
unfolding get destroy_user lookup mirage_chaff.Base.Dict.delete_where mirage_chaff.Base.Text.text_eq
amy_stays = refl

no_lock : lookup bob manager.locks ≡ none
unfolding lookup
no_lock = refl

abbrev five : List ℕ
five = 9 ∷ 8 ∷ 7 ∷ 6 ∷ 5 ∷ []

failures_lock_example :
    locked (failures manager bob five) bob 10
    ≡ elim (latest_fifth five) [ none ↦ false | some u ↦ ltb 10 (u + lock_duration) ]
failures_lock_example =
    failures_lock manager bob 9 (8 ∷ 7 ∷ 6 ∷ 5 ∷ []) 10 no_lock
      (omega arith, (omega arith, (omega arith, (omega arith, tt))))

record_success_unlocks_example :
    (locked (record_success (failures manager bob five) bob) bob 10 ≡ false)
    × (lookup bob (record_success (failures manager bob five) bob).locks ≡ none)
record_success_unlocks_example = record_success_unlocks (failures manager bob five) bob 10

abbrev calls : List Call
calls = fails_ip (codes "::1") 1 ∷ succeeds bob ∷ fails_ip (codes "::2") 2 ∷ []

-- As many addresses as the number says.
abbrev table : ℕ → Dict Text IpState
table zero = []
table (suc n) = (n ∷ [], record { failures = 1; lock_until = 0 }) ∷ table n

abbrev full : SessionManager
full = record manager { ip_locks = table 500 }

full-IsShutOut : IsShutOut full (codes "::1")
unfolding lookup mirage_chaff.Base.Text.text_eq
full-IsShutOut = record { full = omega arith; absent = refl }

full_table_never_locks_example : ip_locked (run full calls) (codes "::1") 3 ≡ false
full_table_never_locks_example = full_table_never_locks full calls (codes "::1") 3 full-IsShutOut
