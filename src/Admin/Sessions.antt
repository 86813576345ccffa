-- ===== src/Admin/Sessions.antt =====
-- internal/admin/session.go: server-side sessions and the two login lockouts. A time is nanoseconds
-- after Go's zero time, so that 0 is `IsZero`. The clock's reading and the random tokens are
-- arguments.
pub mod Expiry
pub mod Lockout
pub mod IpLockout
use mirage_chaff.Base.{
  ℕ, ◌+◌, ◌-◌, Bool, true, false, ◌&&◌, Option, none, some, [], leb, ltb, ◌==◌, if◌then◌else◌,
  length,
}
use mirage_chaff.Base.Text.{Text, text_eq}
use mirage_chaff.Base.Dict.{Dict, lookup, insert, delete, delete_where, text_key}
use mirage_chaff.Base.Int.{ℤ, positive_or}

pub record Session : Type 0 where
  pub id : Text
  pub username : Text
  pub role : Text
  pub csrf : Text
  pub expires : ℕ

pub record LockState : Type 0 where
  pub failures : ℕ
  pub lock_until : ℕ
  pub last_seen : ℕ

pub record IpState : Type 0 where
  pub failures : ℕ
  pub lock_until : ℕ

pub record SessionManager : Type 0 where
  pub idle_timeout : ℕ
  pub sessions : Dict Text Session
  pub locks : Dict Text LockState
  pub ip_locks : Dict Text IpState

abbrev pub minute : ℕ
minute = 60_000_000_000

abbrev pub lock_threshold : ℕ
lock_threshold = 5

abbrev pub lock_duration : ℕ
lock_duration = 300_000_000_000

abbrev pub lock_sweep_age : ℕ
lock_sweep_age = 1_800_000_000_000

abbrev pub ip_lock_threshold : ℕ
ip_lock_threshold = 20

abbrev pub ip_lock_duration : ℕ
ip_lock_duration = 900_000_000_000

abbrev pub ip_lock_map_max : ℕ
ip_lock_map_max = 500

abbrev default_idle : ℕ
default_idle = 1_800_000_000_000

unfoldable pub new_session_manager : ℤ → SessionManager
new_session_manager idle = record {
  idle_timeout = positive_or idle default_idle;
  sessions = [];
  locks = [];
  ip_locks = [];
}

-- `id` and `csrf` are what `randToken` returned.
unfoldable pub create : SessionManager → Text → Text → Text → Text → ℕ → Session × SessionManager
create m username role id csrf now =
    let s : Session = record {
      id = id;
      username = username;
      role = role;
      csrf = csrf;
      expires = now + m.idle_timeout;
    } in
    (s, record m { sessions = insert id s m.sessions })

-- The session, its expiry moved on, or nil.
unfoldable pub get : SessionManager → Text → ℕ → Option Session × SessionManager
get m id now = elim (lookup id m.sessions) [
  | none ↦ (none, m)
  | some s ↦
      if ltb s.expires now
      then (none, record m { sessions = delete id m.sessions })
      else let s' = record s { expires = now + m.idle_timeout } in
        (some s', record m { sessions = insert id s' m.sessions })
]

unfoldable pub destroy : SessionManager → Text → SessionManager
destroy m id = record m { sessions = delete id m.sessions }

unfoldable pub destroy_user : SessionManager → Text → SessionManager
destroy_user m username = record m {
  sessions = delete_where (λ s. text_eq s.username username) m.sessions;
}

unfoldable pub locked : SessionManager → Text → ℕ → Bool
locked m username now = elim (lookup username m.locks) [
  | none ↦ false
  | some l ↦ ltb now l.lock_until
]

-- An entry below the threshold that has not been seen for the sweep age.
unfoldable pub is_stale : ℕ → LockState → Bool
is_stale now l = (l.lock_until == 0) && ltb lock_sweep_age (now - l.last_seen)

unfoldable pub bump_lock : LockState → ℕ → LockState
bump_lock l now =
    if leb lock_threshold (l.failures + 1)
    then record { failures = 0; lock_until = now + lock_duration; last_seen = now }
    else record { failures = l.failures + 1; lock_until = l.lock_until; last_seen = now }

abbrev pub new_lock : LockState
new_lock = record { failures = 0; lock_until = 0; last_seen = 0 }

abbrev pub lock_or_new : Option LockState → LockState
lock_or_new none = new_lock
lock_or_new (some l) = l

unfoldable pub record_failure : SessionManager → Text → ℕ → SessionManager
record_failure m username now =
    let swept = delete_where (is_stale now) m.locks in
    record m { locks = insert username (bump_lock (lock_or_new (lookup username swept)) now) swept }

unfoldable pub record_success : SessionManager → Text → SessionManager
record_success m username = record m { locks = delete username m.locks }

unfoldable pub ip_locked : SessionManager → Text → ℕ → Bool
ip_locked m ip now = elim (lookup ip m.ip_locks) [ none ↦ false | some s ↦ ltb now s.lock_until ]

unfoldable pub bump_ip : IpState → ℕ → IpState
bump_ip s now =
    if leb ip_lock_threshold (s.failures + 1)
    then record { failures = 0; lock_until = now + ip_lock_duration }
    else record { failures = s.failures + 1; lock_until = s.lock_until }

abbrev pub new_ip : IpState
new_ip = record { failures = 0; lock_until = 0 }

unfoldable pub record_ip_failure : SessionManager → Text → ℕ → SessionManager
record_ip_failure m ip now = elim (lookup ip m.ip_locks) [
  | some s ↦ record m { ip_locks = insert ip (bump_ip s now) m.ip_locks }
  | none ↦
      if leb ip_lock_map_max (length m.ip_locks)
      then m
      else record m { ip_locks = insert ip (bump_ip new_ip now) m.ip_locks }
]
