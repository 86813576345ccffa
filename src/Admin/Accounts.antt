-- ===== src/Admin/Accounts.antt =====
-- internal/admin/admin.go and internal/admin/handlers.go: the logout and the handlers of the accounts, and
-- the site at work as a sequence of requests. The logins through OIDC are left out.
pub mod Roles
pub mod Owned
pub mod Governed
pub mod Kept
pub mod LoggedIn
pub mod Governs
mod Examples
use mirage_chaff.Base.{
  ℕ, Bool, true, false, not, ◌||◌, List, [], ◌∷◌, ◌++◌, Option, none, some, length, ltb,
  if◌then◌else◌,
}
use mirage_chaff.Base.Text.{Text, codes, text_eq}
use mirage_chaff.Admin.Sessions.{Session, SessionManager, destroy, destroy_user}
use mirage_chaff.Admin.Users.{User, role_caps, find_user, upsert, delete_user, set_password}
use mirage_chaff.Admin.Access.{
  AdminState, AdminRequest, Credentials, behind, note, put_users, handle_login,
  handle_change_password,
}

unfoldable pub handle_logout : Session → AdminState → ℕ × AdminState
handle_logout s a = (200, record a { sess = destroy a.sess s.id })

pub record NewUser : Type 0 where
  pub username : Text
  pub password : Text
  pub role : Text

abbrev pub is_known : Option (List Text) → Bool
is_known none = false
is_known (some caps) = true

abbrev pub exists : Option User → Bool
exists none = false
exists (some u) = true

unfoldable pub handle_user_create :
    Option NewUser → Text → Bool → ℕ → Session → AdminState → ℕ × AdminState
handle_user_create none hash saved now s a = (400, a)
handle_user_create (some q) hash saved now s a =
    if text_eq q.username [] || ltb (length q.password) 8
    then (400, a)
    else if not (is_known (role_caps q.role))
    then (400, a)
    else if exists (find_user q.username a.store.users)
    then (409, a)
    else (let u : User = record {
      username = q.username;
      hash = hash;
      role = q.role;
      disabled = false;
      must_change = false;
      created = now;
    } in
        let a' = put_users (upsert now u a.store.users) a in
        if saved
        then (
          200,
          note now s.username (codes "users.create")
              (q.username ++ (codes " (" ++ (q.role ++ codes ")"))) a',
        )
        else (500, a'))

unfoldable pub handle_user_delete : Text → Bool → ℕ → Session → AdminState → ℕ × AdminState
handle_user_delete name saved now s a =
    if text_eq name s.username
    then (400, a)
    else (let a' = put_users (delete_user name a.store.users) a in
        if saved
        then (
          200,
          note now s.username (codes "users.delete") name
              (record a' { sess = destroy_user a'.sess name }),
        )
        else (500, a'))

unfoldable pub handle_user_set_password :
    Text → Option Text → Text → Bool → ℕ → Session → AdminState → ℕ × AdminState
handle_user_set_password name none hash saved now s a = (400, a)
handle_user_set_password name (some password) hash saved now s a =
    if ltb (length password) 8 then (400, a) else elim (set_password name hash a.store.users) [
      | none ↦ (404, a)
      | some us ↦
          let a' = put_users us a in
          if saved
          then (
            200,
            note now s.username (codes "users.setpassword") name
                (record a' { sess = destroy_user a'.sess name }),
          )
          else (404, a')
    ]

-- One request, with what its handler reads and what chance and the disk give it.
pub data Call : Type 0 where
  logs_in : Option Credentials → Text → Text → Text → Call
  logs_out : Call
  changes_password : Option (Text × Text) → Text → Bool → Call
  creates : Option NewUser → Text → Bool → Call
  deletes : Text → Bool → Call
  sets_password : Text → Option Text → Text → Bool → Call
  -- Any other request behind `withAuth`, of a handler that changes no account.
  visits : Text → Call

module _ (verify : Text → Text → Bool) where
  unfoldable pub answer : Call → AdminRequest → ℕ → AdminState → ℕ × AdminState
  answer (logs_in c ip id csrf) r now a = handle_login verify c ip id csrf now a
  answer logs_out r now a = behind [] r now handle_logout a
  answer (changes_password body hash saved) r now a =
      behind [] r now (handle_change_password verify body hash saved now) a
  answer (creates body hash saved) r now a =
      behind (codes "users.manage") r now (handle_user_create body hash saved now) a
  answer (deletes name saved) r now a =
      behind (codes "users.manage") r now (handle_user_delete name saved now) a
  answer (sets_password name body hash saved) r now a =
      behind (codes "users.manage") r now (handle_user_set_password name body hash saved now) a
  answer (visits capability) r now a = behind capability r now (λ s a. (200, a)) a

  unfoldable pub answer_all : List (Call × AdminRequest × ℕ) → AdminState → AdminState
  answer_all [] a = a
  answer_all ((c, r, now) ∷ cs) a = answer_all cs (answer c r now a).1
