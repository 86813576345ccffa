-- ===== src/Admin/Accounts/Examples.antt =====
-- The first administrator, signed in, and a request of his.
use mirage_chaff.Base.{ℕ, ◌≡◌, ◌↔◌, refl, Bool, true, false, List, [], ◌∷◌, some}
use mirage_chaff.Base.Text.{Text, codes, text_eq}
use mirage_chaff.Admin.Sessions.{Session, SessionManager}
use mirage_chaff.Admin.Users.{
  StoreData, bootstrap, audit, upsert, replace_user, find_user, role_admin,
}
use mirage_chaff.Admin.Access.{AdminState, AdminRequest, with_auth, granted}
use mirage_chaff.Admin.Access.Demands.{Permits}
use mirage_chaff.Admin.Access.Granted.{Live, with_auth_iff}
use mirage_chaff.Admin.Accounts.{Call, deletes, logs_out, answer_all}
use mirage_chaff.Admin.Accounts.Owned.{IsGoverned}
use mirage_chaff.Admin.Accounts.Governs.{answer_all-Governed}

abbrev store : StoreData
store = bootstrap 5 (codes "hash") (record { users = []; audit = [] })

abbrev id : Text
id = codes "s1"

abbrev session : Session
session = record {
  id = id;
  username = role_admin;
  role = role_admin;
  csrf = codes "token";
  expires = 1_000;
}

abbrev manager : SessionManager
manager = record { idle_timeout = 900; sessions = (id, session) ∷ []; locks = []; ip_locks = [] }

abbrev site : AdminState
site = record { store = store; sess = manager }

abbrev request : AdminRequest
request = record {
  method = codes "POST";
  path = codes "/api/users";
  cookie = some id;
  csrf_header = codes "token";
}

abbrev never : Text → Text → Bool
never password hash = false

site-IsGoverned : IsGoverned store.users manager
unfolding bootstrap audit upsert replace_user find_user text_eq
site-IsGoverned = record { owned = (refl, tt); admin = (role_admin, refl) }

abbrev calls : List (Call × AdminRequest × ℕ)
calls = (deletes (codes "eve") true, request, 200) ∷ (logs_out, request, 300) ∷ []

answer_all-Governed_example :
    IsGoverned (answer_all never calls site).store.users (answer_all never calls site).sess
answer_all-Governed_example = answer_all-Governed never calls site (refl, (tt, tt)) site-IsGoverned

with_auth_iff_example :
    ((with_auth (codes "users.manage") request 200 site).0 ≡ granted session) ↔ (
      Live request 200 site session
      × Permits (codes "users.manage") site.store.users request session)
with_auth_iff_example = with_auth_iff (codes "users.manage") request 200 site session
