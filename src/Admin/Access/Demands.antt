-- ===== src/Admin/Access/Demands.antt =====
-- internal/admin/admin.go and internal/admin/store.go: what `withAuth` demands, and what its tests say of it.
use mirage_chaff.Base.{
  ◌≡◌, ◌≢◌, ◌↔◌, ◌⊎◌, ◌||◌, Bool, refl, ap, ◌∙◌, sym, List, [], ◌∷◌, true, false, some, Bool-cases,
  inl, inr, arith,
}
use mirage_chaff.Base.Text.{Text, codes, text_eq, text_eq_iff}
use mirage_chaff.Base.Dict.{text_key}
use mirage_chaff.Admin.Sessions.{Session}
use mirage_chaff.Admin.Users.{
  User, find_user, can, role_caps, role_admin, role_editor, role_viewer, admin_caps, editor_caps,
  viewer_caps,
}
use mirage_chaff.Policy.Rules.{one_of}
use mirage_chaff.Policy.Load.Accepts.{IsOneOf, one_of_iff}
use mirage_chaff.Admin.Access.{AdminRequest, is_mutation, open_to_all}

-- The account of a name: the first one that has it.
pub IsAccount : Text → List User → User → Type 0
IsAccount name [] u = ⊥
IsAccount name (v ∷ vs) u =
    ((v.username ≡ name) × (v ≡ u)) ⊎ ((v.username ≢ name) × IsAccount name vs u)

-- The requests that are open to an account whose password has to be changed.
abbrev pub IsOpen : AdminRequest → Type 0
IsOpen r =
    ((r.method ≡ codes "GET") × (r.path ≡ codes "/api/me"))
    ⊎ (((r.method ≡ codes "POST") × (r.path ≡ codes "/api/me/password"))
        ⊎ ((r.method ≡ codes "POST") × (r.path ≡ codes "/api/logout")))

-- The capabilities, by the roles that have them.
abbrev pub of_all : List Text
of_all =
    codes "dashboard.view"
    ∷ codes "traffic.view"
    ∷ codes "policy.view"
    ∷ codes "catalog.view"
    ∷ codes "mimic.view"
    ∷ codes "config.view"
    ∷ []

abbrev pub of_editors : List Text
of_editors =
    codes "policy.edit"
    ∷ codes "catalog.edit"
    ∷ codes "mimic.edit"
    ∷ codes "apply.reload"
    ∷ codes "allow.temp"
    ∷ []

abbrev pub of_viewers : List Text
of_viewers = codes "audit.view" ∷ []

abbrev pub of_admins : List Text
of_admins =
    codes "traffic.view_full"
    ∷ codes "config.edit"
    ∷ codes "agh.manage"
    ∷ codes "killswitch.execute"
    ∷ codes "users.manage"
    ∷ []

-- What each role may do: the administrator everything, and another role nothing.
abbrev pub MayDo : Text → Text → Type 0
MayDo role c =
    ((role ≡ codes "admin")
      × (IsOneOf c of_all ⊎ (IsOneOf c of_editors ⊎ (IsOneOf c of_viewers ⊎ IsOneOf c of_admins))))
    ⊎ (((role ≡ codes "editor") × (IsOneOf c of_all ⊎ IsOneOf c of_editors))
        ⊎ ((role ≡ codes "viewer") × (IsOneOf c of_all ⊎ IsOneOf c of_viewers)))

-- The demands of `withAuth` on a request with a live session.
pub record Permits (capability : Text) (us : List User) (r : AdminRequest) (s : Session)
    : Type 0 where
  pub csrf_ok : r.method ≢ codes "GET" → r.method ≢ codes "HEAD" → r.csrf_header ≡ s.csrf
  pub change_ok : (u : User) → IsAccount s.username us u → u.must_change ≡ true → IsOpen r
  pub capability_ok : capability ≢ [] → MayDo s.role capability

pub find_user_iff :
    (name : Text) (us : List User) (u : User) → (find_user name us ≡ some u) ↔ IsAccount name us u
unfolding find_user IsAccount
find_user_iff name [] u = (λ h. absurd (cc), λ h. absurd h)
find_user_iff name (v ∷ vs) u = elim (Bool-cases (text_eq v.username name)) [
  | inl y ↦ (
    (λ h. inl ((text_eq_iff v.username name).0 y, cc (rw (find_user, y) at h))),
    (λ h. elim h [
      | inl (e, q) ↦ rw (find_user, y) (ap some q)
      | inr (n, q) ↦ absurd (n ((text_eq_iff v.username name).0 y))
    ]),
  )
  | inr n ↦ (
    (λ h. inr (
      ground (arith, n, text_eq_iff v.username name),
      (find_user_iff name vs u).0 (rw (find_user, n) at h),
    )),
    (λ h. elim h [
      | inl (e, q) ↦ absurd (ground (arith, n, e, text_eq_iff v.username name))
      | inr (m, q) ↦ rw (find_user, n) ((find_user_iff name vs u).1 q)
    ]),
  )
]

pub is_mutation_iff :
    (method : Text)
    → (is_mutation method ≡ true) ↔ ((method ≢ codes "GET") × (method ≢ codes "HEAD"))
unfolding is_mutation
is_mutation_iff method =
    ground (arith, text_eq_iff method (codes "GET"), text_eq_iff method (codes "HEAD"))

pub open_to_all_iff : (r : AdminRequest) → (open_to_all r ≡ true) ↔ IsOpen r
unfolding open_to_all
open_to_all_iff r = ground (
  arith,
  text_eq_iff r.method (codes "GET"),
  text_eq_iff r.method (codes "POST"),
  text_eq_iff r.path (codes "/api/me"),
  text_eq_iff r.path (codes "/api/me/password"),
  text_eq_iff r.path (codes "/api/logout"),
)

admin_caps-split :
    (c : Text)
    → one_of c admin_caps
      ≡ (one_of c of_all || (one_of c of_editors || (one_of c of_viewers || one_of c of_admins)))
unfolding one_of
admin_caps-split c = ground arith

editor_caps-split : (c : Text) → one_of c editor_caps ≡ (one_of c of_all || one_of c of_editors)
unfolding one_of
editor_caps-split c = ground arith

viewer_caps-split : (c : Text) → one_of c viewer_caps ≡ (one_of c of_all || one_of c of_viewers)
unfolding one_of
viewer_caps-split c = ground arith

or_iff :
    {P Q : Type 0} (a b : Bool) → ((a ≡ true) ↔ P) → ((b ≡ true) ↔ Q) → ((a || b) ≡ true) ↔ (P ⊎ Q)
or_iff true b f g = ((λ h. inl (f.0 refl)), (λ h. refl))
or_iff false b f g =
    ((λ h. inr (g.0 h)), (λ h. elim h [ inl p ↦ absurd (cc (f.1 p)) | inr q ↦ g.1 q ]))

admin_caps_iff :
    (c : Text)
    → (one_of c admin_caps ≡ true)
      ↔ (IsOneOf c of_all ⊎ (IsOneOf c of_editors ⊎ (IsOneOf c of_viewers ⊎ IsOneOf c of_admins)))
admin_caps_iff c = rw (admin_caps-split c) (
    or_iff _ _ (one_of_iff c of_all) (
      or_iff _ _ (one_of_iff c of_editors)
        (or_iff _ _ (one_of_iff c of_viewers) (one_of_iff c of_admins))))

editor_caps_iff :
    (c : Text) → (one_of c editor_caps ≡ true) ↔ (IsOneOf c of_all ⊎ IsOneOf c of_editors)
editor_caps_iff c =
    rw (editor_caps-split c) (or_iff _ _ (one_of_iff c of_all) (one_of_iff c of_editors))

viewer_caps_iff :
    (c : Text) → (one_of c viewer_caps ≡ true) ↔ (IsOneOf c of_all ⊎ IsOneOf c of_viewers)
viewer_caps_iff c =
    rw (viewer_caps-split c) (or_iff _ _ (one_of_iff c of_all) (one_of_iff c of_viewers))

apart : (role a b : Text) → text_eq a b ≡ false → role ≡ a → role ≡ b → ⊥
apart role a b n e q = ground (arith, n, text_eq_iff a b, sym e ∙ q)

no_role :
    (role capability : Text)
    → text_eq role role_admin ≡ false
    → text_eq role role_editor ≡ false
    → text_eq role role_viewer ≡ false
    → MayDo role capability
    → ⊥
no_role role capability n m k (inl (e, q)) = ground (arith, n, (text_eq_iff role role_admin).1 e)
no_role role capability n m k (inr (inl (e, q))) =
    ground (arith, m, (text_eq_iff role role_editor).1 e)
no_role role capability n m k (inr (inr (e, q))) =
    ground (arith, k, (text_eq_iff role role_viewer).1 e)

pub can_iff : (role capability : Text) → (can role capability ≡ true) ↔ MayDo role capability
unfolding can role_caps text_eq
can_iff role capability = elim (Bool-cases (text_eq role role_admin)) [
  | inl y ↦
      let is : role ≡ role_admin = (text_eq_iff role role_admin).0 y in
      rw (can, role_caps, y)
        (
          (λ h. inl (is, (admin_caps_iff capability).0 h)),
          (λ h. elim h [
            | inl (e, q) ↦ (admin_caps_iff capability).1 q
            | inr (inl (e, q)) ↦ absurd (apart role role_admin role_editor refl is e)
            | inr (inr (e, q)) ↦ absurd (apart role role_admin role_viewer refl is e)
          ]),
        )
  | inr n ↦ elim (Bool-cases (text_eq role role_editor)) [
    | inl y ↦
        let is : role ≡ role_editor = (text_eq_iff role role_editor).0 y in
        rw (can, role_caps, n, y)
          (
            (λ h. inr (inl (is, (editor_caps_iff capability).0 h))),
            (λ h. elim h [
              | inl (e, q) ↦ absurd (apart role role_editor role_admin refl is e)
              | inr (inl (e, q)) ↦ (editor_caps_iff capability).1 q
              | inr (inr (e, q)) ↦ absurd (apart role role_editor role_viewer refl is e)
            ]),
          )
    | inr m ↦ elim (Bool-cases (text_eq role role_viewer)) [
      | inl y ↦
          let is : role ≡ role_viewer = (text_eq_iff role role_viewer).0 y in
          rw (can, role_caps, n, m, y)
            (
              (λ h. inr (inr (is, (viewer_caps_iff capability).0 h))),
              (λ h. elim h [
                | inl (e, q) ↦ absurd (apart role role_viewer role_admin refl is e)
                | inr (inl (e, q)) ↦ absurd (apart role role_viewer role_editor refl is e)
                | inr (inr (e, q)) ↦ (viewer_caps_iff capability).1 q
              ]),
            )
      | inr k ↦
          rw (can, role_caps, n, m, k)
            ((λ h. absurd (cc)), (λ h. absurd (no_role role capability n m k h)))
    ]
  ]
]
