-- ===== src/Admin/Access.antt =====
-- internal/admin/admin.go and internal/admin/handlers.go: `withAuth`, the login and the change of the own
-- password. A reply is its status code. The body of a request is none where it cannot be decoded, and the
-- status for that is 400, which also stands for the 413 of a body above the limit; `verify` is
-- VerifyPassword. A handler is one step: other requests come before it or behind it.
pub mod Demands
pub mod Granted
use mirage_chaff.Base.{
  ℕ, Bool, false, not, ◌&&◌, ◌||◌, List, [], Option, none, some, length, ltb, if◌then◌else◌,
}
use mirage_chaff.Base.Text.{Text, codes, text_eq}
use mirage_chaff.Admin.Sessions.{
  Session, SessionManager, create, get, locked, ip_locked, record_failure, record_ip_failure,
  record_success,
}
use mirage_chaff.Admin.Users.{User, StoreData, can, find_user, set_password, audit}

pub record AdminState : Type 0 where
  pub store : StoreData
  pub sess : SessionManager

-- A request: the session cookie, if there is one, and the CSRF header, empty if there is none.
pub record AdminRequest : Type 0 where
  pub method : Text
  pub path : Text
  pub cookie : Option Text
  pub csrf_header : Text

pub data Access : Type 0 where
  unauthorized : Access
  bad_csrf : Access
  change_required : Access
  missing_capability : Access
  granted : Session → Access

-- Whether the method changes state.
unfoldable pub is_mutation : Text → Bool
is_mutation method = not (text_eq method (codes "GET")) && not (text_eq method (codes "HEAD"))

-- The requests that are open to an account whose password has to be changed.
unfoldable pub open_to_all : AdminRequest → Bool
open_to_all r =
    (text_eq r.method (codes "GET") && text_eq r.path (codes "/api/me"))
    || ((text_eq r.method (codes "POST") && text_eq r.path (codes "/api/me/password"))
        || (text_eq r.method (codes "POST") && text_eq r.path (codes "/api/logout")))

-- `mustChangeBlocked`
unfoldable pub must_change_blocked : List User → Session → AdminRequest → Bool
must_change_blocked users s r = elim (find_user s.username users) [
  | none ↦ false
  | some u ↦ u.must_change && not (open_to_all r)
]

-- `withAuth` behind the lookup of the session.
unfoldable pub check_access : Text → List User → AdminRequest → Session → Access
check_access capability users r s =
    if is_mutation r.method && not (text_eq r.csrf_header s.csrf)
    then bad_csrf
    else if must_change_blocked users s r
    then change_required
    else if not (text_eq capability []) && not (can s.role capability)
    then missing_capability
    else granted s

unfoldable pub with_auth : Text → AdminRequest → ℕ → AdminState → Access × AdminState
with_auth capability r now a = elim r.cookie [
  | none ↦ (unauthorized, a)
  | some id ↦
      let (found, sess) = get a.sess id now in
      let a' : AdminState = record a { sess = sess } in
      elim found [
        | none ↦ (unauthorized, a')
        | some s ↦ (check_access capability a.store.users r s, a')
      ]
]

unfoldable pub handle_access :
    (Session → AdminState → ℕ × AdminState) → Access → AdminState → ℕ × AdminState
handle_access handler unauthorized a = (401, a)
handle_access handler bad_csrf a = (403, a)
handle_access handler change_required a = (403, a)
handle_access handler missing_capability a = (403, a)
handle_access handler (granted s) a = handler s a

-- A handler behind `withAuth`.
unfoldable pub behind :
    Text → AdminRequest → ℕ → (Session → AdminState → ℕ × AdminState) → AdminState → ℕ × AdminState
behind capability r now handler a =
    let (access, a') = with_auth capability r now a in handle_access handler access a'

abbrev pub note : ℕ → Text → Text → Text → AdminState → AdminState
note now actor action detail a = record a { store = audit now actor action detail a.store }

abbrev pub put_users : List User → AdminState → AdminState
put_users us a = let st = a.store in record a { store = record st { users = us } }

pub record Credentials : Type 0 where
  pub username : Text
  pub password : Text

-- A login that fails. Only an account that is there is locked.
unfoldable pub refuse_login : Text → Text → Option User → ℕ → AdminState → ℕ × AdminState
refuse_login username ip found now a =
    let sess : SessionManager = elim found [
      | none ↦ a.sess
      | some u ↦ record_failure a.sess username now
    ] in
    (
      401,
      note now username (codes "login.fail") (codes "invalid credentials")
          (record a { sess = record_ip_failure sess ip now }),
    )

-- A login that succeeds; `id` and `csrf` are the random tokens of the session.
unfoldable pub accept_login : User → Text → Text → ℕ → AdminState → ℕ × AdminState
accept_login u id csrf now a =
    let (s, sess) = create (record_success a.sess u.username) u.username u.role id csrf now in
    (200, note now u.username (codes "login") (codes "success") (record a { sess = sess }))

module _ (verify : Text → Text → Bool) where
  unfoldable pub handle_login :
      Option Credentials → Text → Text → Text → ℕ → AdminState → ℕ × AdminState
  handle_login none ip id csrf now a = (400, a)
  handle_login (some c) ip id csrf now a =
      let found = find_user c.username a.store.users in
      if ip_locked a.sess ip now || locked a.sess c.username now then (429, a) else elim found [
        | none ↦ refuse_login c.username ip none now a
        | some u ↦
            if not (verify c.password u.hash) || u.disabled
            then refuse_login c.username ip (some u) now a
            else accept_login u id csrf now a
      ]

  -- The body has the old and the new password; `saved` is whether the store could be saved.
  unfoldable pub handle_change_password :
      Option (Text × Text) → Text → Bool → ℕ → Session → AdminState → ℕ × AdminState
  handle_change_password none hash saved now s a = (400, a)
  handle_change_password (some (old, new)) hash saved now s a =
      if ltb (length new) 8 then (400, a) else elim (find_user s.username a.store.users) [
        | none ↦ (401, a)
        | some u ↦
            if not (verify old u.hash)
            then (401, a)
            else elim (set_password s.username hash a.store.users) [
              | none ↦ (500, a)
              | some us ↦
                  let a' = put_users us a in
                  if saved
                  then (200, note now s.username (codes "password.change") (codes "self") a')
                  else (500, a')
            ]
      ]
