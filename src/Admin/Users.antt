-- ===== src/Admin/Users.antt =====
-- internal/admin/store.go: the accounts and the audit log. A password's hash is an argument, since it
-- holds a random salt. Whether a change of the accounts can be saved is an argument; the accounts in memory
-- are changed all the same.
use mirage_chaff.Base.{
  ℕ, ◌-◌, Bool, true, false, not, ◌&&◌, List, [], ◌∷◌, ◌++◌, Option, none, some, length, drop, take,
  ltb, ◌==◌, if◌then◌else◌,
}
use mathlib.Core.List.{reverse}
use mirage_chaff.Base.Text.{Text, codes, text_eq}
use mirage_chaff.Base.Sort.{sort_by, text_lt}
use mirage_chaff.Policy.Rules.{one_of}

pub record User : Type 0 where
  pub username : Text
  pub hash : Text
  pub role : Text
  pub disabled : Bool
  pub must_change : Bool
  pub created : ℕ

pub record AuditEntry : Type 0 where
  pub time : ℕ
  pub actor : Text
  pub action : Text
  pub detail : Text

-- `storeData`
pub record StoreData : Type 0 where
  pub users : List User
  pub audit : List AuditEntry

abbrev pub role_admin : Text
role_admin = codes "admin"

abbrev pub role_editor : Text
role_editor = codes "editor"

abbrev pub role_viewer : Text
role_viewer = codes "viewer"

abbrev pub admin_caps : List Text
admin_caps =
    codes "dashboard.view"
    ∷ codes "traffic.view"
    ∷ codes "traffic.view_full"
    ∷ codes "policy.view"
    ∷ codes "policy.edit"
    ∷ codes "catalog.view"
    ∷ codes "catalog.edit"
    ∷ codes "mimic.view"
    ∷ codes "mimic.edit"
    ∷ codes "config.view"
    ∷ codes "config.edit"
    ∷ codes "apply.reload"
    ∷ codes "agh.manage"
    ∷ codes "killswitch.execute"
    ∷ codes "users.manage"
    ∷ codes "audit.view"
    ∷ codes "allow.temp"
    ∷ []

abbrev pub editor_caps : List Text
editor_caps =
    codes "dashboard.view"
    ∷ codes "traffic.view"
    ∷ codes "policy.view"
    ∷ codes "policy.edit"
    ∷ codes "catalog.view"
    ∷ codes "catalog.edit"
    ∷ codes "mimic.view"
    ∷ codes "mimic.edit"
    ∷ codes "config.view"
    ∷ codes "apply.reload"
    ∷ codes "allow.temp"
    ∷ []

abbrev pub viewer_caps : List Text
viewer_caps =
    codes "dashboard.view"
    ∷ codes "traffic.view"
    ∷ codes "policy.view"
    ∷ codes "catalog.view"
    ∷ codes "mimic.view"
    ∷ codes "config.view"
    ∷ codes "audit.view"
    ∷ []

-- `roleCaps`, none for a role that is not a key.
unfoldable pub role_caps : Text → Option (List Text)
role_caps role =
    if text_eq role role_admin
    then some admin_caps
    else if text_eq role role_editor
    then some editor_caps
    else if text_eq role role_viewer
    then some viewer_caps
    else none

-- `Can`
unfoldable pub can : Text → Text → Bool
can role capability = elim (role_caps role) [ none ↦ false | some caps ↦ one_of capability caps ]

-- `Store.Get`
unfoldable pub find_user : Text → List User → Option User
find_user name [] = none
find_user name (u ∷ us) = if text_eq u.username name then some u else find_user name us

-- The loop of `Upsert`: the account replaced, if there is one of its name.
unfoldable pub replace_user : User → List User → Option (List User)
replace_user u [] = none
replace_user u (e ∷ us) =
    let rest = replace_user u us in
    if text_eq e.username u.username
    then some (record u { hash = if text_eq u.hash [] then e.hash else u.hash } ∷ us)
    else elim rest [ none ↦ none | some us' ↦ some (e ∷ us') ]

unfoldable pub upsert : ℕ → User → List User → List User
upsert now u us = elim (replace_user u us) [
  | some us' ↦ us'
  | none ↦ us ++ (record u { created = if u.created == 0 then now else u.created } ∷ [])
]

-- `Store.Delete`
unfoldable pub delete_user : Text → List User → List User
delete_user name [] = []
delete_user name (u ∷ us) =
    if not (text_eq u.username name) then u ∷ delete_user name us else delete_user name us

-- `SetPassword`, none where the user is not found.
unfoldable pub set_password : Text → Text → List User → Option (List User)
set_password name hash [] = none
set_password name hash (u ∷ us) =
    let rest = set_password name hash us in
    if text_eq u.username name
    then some (record u { hash = hash; must_change = false } ∷ us)
    else elim rest [ none ↦ none | some us' ↦ some (u ∷ us') ]

-- `List`
unfoldable pub without_hashes : List User → List User
without_hashes [] = []
without_hashes (u ∷ us) = record u { hash = [] } ∷ without_hashes us

unfoldable pub list_users : StoreData → List User
list_users d = sort_by (λ (a b : User). text_lt a.username b.username) (without_hashes d.users)

unfoldable pub audit : ℕ → Text → Text → Text → StoreData → StoreData
audit now actor action detail d =
    let all =
      d.audit ++ (record { time = now; actor = actor; action = action; detail = detail } ∷ []) in
    record d { audit = if ltb 5_000 (length all) then drop (length all - 5_000) all else all }

-- `AuditLog`; all entries for 0, which also stands for the negative numbers.
unfoldable pub audit_log : ℕ → StoreData → List AuditEntry
audit_log n d =
    let out = reverse d.audit in if not (n == 0) && ltb n (length out) then take n out else out

-- `BootstrapInitialAdmin`, with the hash of a random password.
unfoldable pub bootstrap : ℕ → Text → StoreData → StoreData
bootstrap now hash d =
    if ltb 0 (length d.users)
    then d
    else (let u : User = record {
      username = role_admin;
      hash = hash;
      role = role_admin;
      disabled = false;
      must_change = true;
      created = now;
    } in
        audit now (codes "system") (codes "bootstrap") (codes "created initial admin account")
          (record d { users = upsert now u d.users }))
