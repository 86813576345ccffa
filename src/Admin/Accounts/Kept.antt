-- ===== src/Admin/Accounts/Kept.antt =====
-- internal/admin: each handler keeps the sessions with their accounts, and an administrator.
use mirage_chaff.Base.{
  ℕ, Bool, ◌≡◌, refl, ◌∙◌, ap, List, [], true, false, not, Option, none, some, Bool-cases,
  Option-cases, inl, inr, arith, ◌||◌, ltb, length,
}
use mirage_chaff.Base.Text.{Text, codes, text_eq, text_eq_iff}
use mirage_chaff.Base.Dict.{text_key}
use mirage_chaff.Policy.Rules.{one_of}
use mirage_chaff.Admin.Sessions.{SessionManager, destroy, destroy_user}
use mirage_chaff.Admin.Users.{
  User, find_user, upsert, delete_user, set_password, can, role_caps, role_admin, role_editor,
  role_viewer, audit,
}
use mirage_chaff.Admin.Access.{AdminRequest, handle_change_password}
use mirage_chaff.Admin.Accounts.{
  NewUser, handle_logout, handle_user_create, handle_user_delete, handle_user_set_password,
  is_known,
}
use mirage_chaff.Admin.Accounts.Roles.{
  role_of, role_of-delete_user, role_of-set_password, role_of-upsert,
}
use mirage_chaff.Admin.Accounts.Owned.{
  IsGoverned, Owns, keep-IsGoverned, delete-AllValues, delete_where-AllValues,
}
use mirage_chaff.Admin.Accounts.Governed.{Keeps}

abbrev pub manage : Text
manage = codes "users.manage"

false-true : false ≡ true → ⊥
false-true h = cc

-- Only the administrator's role has the capability.
can-manage : (role : Text) → can role manage ≡ true → role ≡ role_admin
unfolding can role_caps one_of text_eq
can-manage role h = elim (Bool-cases (text_eq role role_admin)) [
  | inl y ↦ (text_eq_iff role role_admin).0 y
  | inr n ↦ elim (Bool-cases (text_eq role role_editor)) [
    | inl y ↦ absurd (false-true (rw (can, role_caps, n, y) at h))
    | inr m ↦ elim (Bool-cases (text_eq role role_viewer)) [
      | inl y ↦ absurd (false-true (rw (can, role_caps, n, m, y) at h))
      | inr k ↦ absurd (false-true (rw (can, role_caps, n, m, k) at h))
    ]
  ]
]

destroy_user-Governed :
    (us : List User) (m : SessionManager) (name : Text) (vs : List User)
    → ((n : Text) → text_eq n name ≡ false → role_of n vs ≡ role_of n us)
    → IsGoverned us m
    → ((n : Text) × (role_of n vs ≡ some role_admin))
    → IsGoverned vs (destroy_user m name)
unfolding destroy_user
destroy_user-Governed us m name vs f g admin = record {
  owned =
      delete_where-AllValues (Owns us) (Owns vs) _ m.sessions (λ s other h. f s.username other ∙ h)
        g.owned;
  admin = admin;
}

pub logout-Keeps : (c : Text) (r : AdminRequest) (now : ℕ) → Keeps c r now handle_logout
unfolding handle_logout destroy
logout-Keeps c r now s a g k = record {
  owned = delete-AllValues (Owns a.store.users) s.id a.sess.sessions g.owned;
  admin = g.admin;
}

pub create-Keeps :
    (r : AdminRequest) (now : ℕ) (body : Option NewUser) (hash : Text) (saved : Bool)
    → Keeps manage r now (handle_user_create body hash saved now)
unfolding handle_user_create audit
create-Keeps r now none hash saved s a g k = g
create-Keeps r now (some q) hash saved s a g k =
    elim (Bool-cases (text_eq q.username [] || ltb (length q.password) 8)) [
      | inl y ↦ rw (handle_user_create, y) g
      | inr n ↦ elim (Bool-cases (not (is_known (role_caps q.role)))) [
        | inl y ↦ rw (handle_user_create, n, y) g
        | inr m ↦ elim (Option-cases (find_user q.username a.store.users)) [
          | inr (u, f) ↦ rw (handle_user_create, n, m, f) g
          | inl f ↦
              let u : User = record {
                username = q.username;
                hash = hash;
                role = q.role;
                disabled = false;
                must_change = false;
                created = now;
              } in
              let kept =
                keep-IsGoverned a.store.users (upsert now u a.store.users) a.sess
                  (λ n r h. role_of-upsert n r now u a.store.users f h) g in
              elim (Bool-cases saved) [
                | inl y ↦ rw (handle_user_create, n, m, f, y) kept
                | inr y ↦ rw (handle_user_create, n, m, f, y) kept
              ]
        ]
      ]
    ]

pub delete-Keeps :
    (r : AdminRequest) (now : ℕ) (name : Text)
    → Keeps manage r now (handle_user_delete name true now)
unfolding handle_user_delete audit
delete-Keeps r now name s a g k = elim (Bool-cases (text_eq name s.username)) [
  | inl y ↦ rw (handle_user_delete, y) g
  | inr n ↦
      let us = a.store.users in
      let still = role_of-delete_user s.username name us n in
      rw (handle_user_delete, n)
        (destroy_user-Governed us a.sess name (delete_user name us)
          (λ j other.
            role_of-delete_user j name us
              (ground (arith, other, text_eq_iff j name, text_eq_iff name j)))
          g (s.username, still ∙ k.owns ∙ ap some (can-manage s.role (k.has (λ e. cc)))))
]

-- The sessions of a name are ended, or none is, behind a change of its password.
password-IsGoverned :
    (us vs : List User) (name hash : Text) (m : SessionManager)
    → set_password name hash us ≡ some vs
    → IsGoverned us m
    → IsGoverned vs m
password-IsGoverned us vs name hash m h g =
    keep-IsGoverned us vs m (λ n r k. role_of-set_password n name hash us vs h ∙ k) g

pub set_password-Keeps :
    (r : AdminRequest) (now : ℕ) (name : Text) (body : Option Text) (hash : Text) (saved : Bool)
    → Keeps manage r now (handle_user_set_password name body hash saved now)
unfolding handle_user_set_password audit
set_password-Keeps r now name none hash saved s a g k = g
set_password-Keeps r now name (some password) hash saved s a g k =
    elim (Bool-cases (ltb (length password) 8)) [
      | inl y ↦ rw (handle_user_set_password, y) g
      | inr n ↦ elim (Option-cases (set_password name hash a.store.users)) [
        | inl f ↦ rw (handle_user_set_password, n, f) g
        | inr (vs, f) ↦
            let h = password-IsGoverned a.store.users vs name hash a.sess f g in
            elim (Bool-cases saved) [
              | inl y ↦
                  rw (handle_user_set_password, n, f, y)
                    (destroy_user-Governed vs a.sess name vs (λ j other. refl) h h.admin)
              | inr y ↦ rw (handle_user_set_password, n, f, y) h
            ]
      ]
    ]

pub change_password-Keeps :
    (verify : Text → Text → Bool) (c : Text) (r : AdminRequest) (now : ℕ)
    (body : Option (Text × Text)) (hash : Text) (saved : Bool)
    → Keeps c r now (handle_change_password verify body hash saved now)
unfolding handle_change_password audit
change_password-Keeps verify c r now none hash saved s a g k = g
change_password-Keeps verify c r now (some (old, new)) hash saved s a g k =
    elim (Bool-cases (ltb (length new) 8)) [
      | inl y ↦ rw (handle_change_password, y) g
      | inr n ↦ elim (Option-cases (find_user s.username a.store.users)) [
        | inl f ↦ rw (handle_change_password, n, f) g
        | inr (u, f) ↦ elim (Bool-cases (not (verify old u.hash))) [
          | inl y ↦ rw (handle_change_password, n, f, y) g
          | inr v ↦ elim (Option-cases (set_password s.username hash a.store.users)) [
            | inl e ↦ rw (handle_change_password, n, f, v, e) g
            | inr (vs, e) ↦
                let h = password-IsGoverned a.store.users vs s.username hash a.sess e g in
                elim (Bool-cases saved) [
                  | inl y ↦ rw (handle_change_password, n, f, v, e, y) h
                  | inr y ↦ rw (handle_change_password, n, f, v, e, y) h
                ]
          ]
        ]
      ]
    ]
