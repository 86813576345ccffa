-- ===== src/Admin/Accounts/LoggedIn.antt =====
-- internal/admin/admin.go: what a login does to the sessions.
use mirage_chaff.Base.{
  ℕ, Bool, ◌≡◌, refl, ap, sym, subst, List, [], ◌∷◌, not, Option, none, some, Bool-cases,
  Option-cases, inl, inr, All, ◌||◌, length, leb,
}
use mirage_chaff.Base.Text.{Text, text_eq, text_eq_iff}
use mirage_chaff.Base.Dict.{Dict, lookup, text_key}
use mirage_chaff.Admin.Sessions.{
  Session, SessionManager, create, record_failure, record_ip_failure, record_success, ip_locked,
  locked, ip_lock_map_max,
}
use mirage_chaff.Admin.Users.{User, find_user, audit}
use mirage_chaff.Admin.Access.{AdminState, Credentials, refuse_login, accept_login, handle_login}
use mirage_chaff.Admin.Accounts.Roles.{role_of, role_in}
use mirage_chaff.Admin.Accounts.Owned.{IsGoverned, Owns, insert-AllValues}
use mirage_chaff.Admin.Accounts.Governed.{Governed}

find_user-username :
    (name : Text) (us : List User) (u : User) → find_user name us ≡ some u → u.username ≡ name
unfolding find_user
find_user-username name [] u h = absurd (cc)
find_user-username name (v ∷ us) u h = elim (Bool-cases (text_eq v.username name)) [
  | inl y ↦
      let e : v ≡ u = cc (rw (find_user, y) at h) in
      subst (λ (x : User). x.username ≡ name) e ((text_eq_iff v.username name).0 y)
  | inr n ↦ find_user-username name us u (rw (find_user, n) at h)
]

record_ip_failure-sessions :
    (m : SessionManager) (ip : Text) (now : ℕ) → (record_ip_failure m ip now).sessions ≡ m.sessions
unfolding record_ip_failure
record_ip_failure-sessions m ip now = elim (Option-cases (lookup ip m.ip_locks)) [
  | inr (s, f) ↦ rw (record_ip_failure, f) refl
  | inl f ↦ elim (Bool-cases (leb ip_lock_map_max (length m.ip_locks))) [
    | inl y ↦ rw (record_ip_failure, f, y) refl
    | inr n ↦ rw (record_ip_failure, f, n) refl
  ]
]

ip_failure-IsGoverned :
    (us : List User) (m : SessionManager) (ip : Text) (now : ℕ)
    → IsGoverned us m
    → IsGoverned us (record_ip_failure m ip now)
ip_failure-IsGoverned us m ip now g = record {
  owned =
      subst (λ (d : Dict Text Session). All (λ e. Owns us e.1) d)
        (sym (record_ip_failure-sessions m ip now)) g.owned;
  admin = g.admin;
}

-- A login that fails changes no session.
failure-Governed :
    (username ip : Text) (found : Option User) (now : ℕ) (a : AdminState)
    → Governed a
    → Governed (refuse_login username ip found now a).1
unfolding refuse_login audit record_failure
failure-Governed username ip none now a g = ip_failure-IsGoverned a.store.users a.sess ip now g
failure-Governed username ip (some u) now a g =
    ip_failure-IsGoverned a.store.users (record_failure a.sess username now) ip now
      (record { owned = g.owned; admin = g.admin })

pub login-Governed :
    (verify : Text → Text → Bool) (c : Option Credentials) (ip id csrf : Text) (now : ℕ)
    (a : AdminState)
    → Governed a
    → Governed (handle_login verify c ip id csrf now a).1
unfolding handle_login accept_login create record_success audit
login-Governed verify none ip id csrf now a g = g
login-Governed verify (some c) ip id csrf now a g =
    elim (Bool-cases (ip_locked a.sess ip now || locked a.sess c.username now)) [
      | inl y ↦ rw (handle_login, y) g
      | inr n ↦ elim (Option-cases (find_user c.username a.store.users)) [
        | inl f ↦ rw (handle_login, n, f) (failure-Governed c.username ip none now a g)
        | inr (u, f) ↦ elim (Bool-cases (not (verify c.password u.hash) || u.disabled)) [
          | inl y ↦ rw (handle_login, n, f, y) (failure-Governed c.username ip (some u) now a g)
          | inr v ↦
              rw (handle_login, n, f, v)
                (record {
                  owned =
                      insert-AllValues (Owns a.store.users) id _ a.sess.sessions
                        (subst (λ x. role_of x a.store.users ≡ some u.role)
                          (sym (find_user-username c.username a.store.users u f)) (ap role_in f))
                        g.owned;
                  admin = g.admin;
                })
        ]
      ]
    ]
