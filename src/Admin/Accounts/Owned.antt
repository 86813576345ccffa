-- ===== src/Admin/Accounts/Owned.antt =====
-- internal/admin: whose sessions there are, and that an administrator is left.
use mirage_chaff.Base.{
  ℕ, ◌+◌, Bool, ◌≡◌, subst, List, [], ◌∷◌, false, some, Bool-cases, Option-cases, inl, inr, All,
  All-map, ltb,
}
use mirage_chaff.Base.Text.{Text, text_eq}
use mirage_chaff.Base.Dict.{Dict, insert, delete, delete_where, lookup, text_key}
use mirage_chaff.Admin.Sessions.{Session, SessionManager, get}
use mirage_chaff.Admin.Users.{User, role_admin}
use mirage_chaff.Admin.Accounts.Roles.{role_of}

-- Every value of a map.
abbrev pub AllValues {ℓ} : {V : Type ℓ} → (V → Type 0) → Dict Text V → Type 0
AllValues P m = All (λ e. P e.1) m

module _ {ℓ} {V : Type ℓ} (P : V → Type 0) where
  pub insert-AllValues :
      (k : Text) (v : V) (m : Dict Text V) → P v → AllValues P m → AllValues P (insert k v m)
  unfolding insert
  insert-AllValues k v [] p a = (p, tt)
  insert-AllValues k v ((j, w) ∷ m) p a = elim (Bool-cases (text_eq j k)) [
    | inl y ↦ rw y (p, a.1)
    | inr n ↦ rw n (a.0, insert-AllValues k v m p a.1)
  ]

  pub delete-AllValues : (k : Text) (m : Dict Text V) → AllValues P m → AllValues P (delete k m)
  unfolding delete
  delete-AllValues k [] a = tt
  delete-AllValues k ((j, w) ∷ m) a = elim (Bool-cases (text_eq j k)) [
    | inl y ↦ rw y (delete-AllValues k m a.1)
    | inr n ↦ rw n (a.0, delete-AllValues k m a.1)
  ]

  pub lookup-AllValues :
      (k : Text) (v : V) (m : Dict Text V) → lookup k m ≡ some v → AllValues P m → P v
  unfolding lookup
  lookup-AllValues k v [] h a = absurd (cc)
  lookup-AllValues k v ((j, w) ∷ m) h a = elim (Bool-cases (text_eq j k)) [
    | inl y ↦ subst P (cc (rw (lookup, y) at h)) a.0
    | inr n ↦ lookup-AllValues k v m (rw (lookup, n) at h) a.1
  ]

-- What is left after a deletion does not meet the test.
pub delete_where-AllValues {ℓ} :
    {V : Type ℓ} (P Q : V → Type 0) (p : V → Bool) (m : Dict Text V)
    → ((v : V) → p v ≡ false → P v → Q v)
    → AllValues P m
    → AllValues Q (delete_where p m)
unfolding delete_where
delete_where-AllValues P Q p [] f a = tt
delete_where-AllValues P Q p ((j, w) ∷ m) f a = elim (Bool-cases (p w)) [
  | inl y ↦ rw y (delete_where-AllValues P Q p m f a.1)
  | inr n ↦ rw n (f w n a.0, delete_where-AllValues P Q p m f a.1)
]

-- The session's name is that of an account with the session's role.
abbrev pub Owns : List User → Session → Type 0
Owns us s = role_of s.username us ≡ some s.role

-- Every session belongs to an account that is there, with the role that the account has, and there is an
-- account of the role `admin`.
pub record IsGoverned (users : List User) (m : SessionManager) : Type 0 where
  pub owned : All (λ (e : Text × Session). Owns users e.1) m.sessions
  pub admin : (name : Text) × (role_of name users ≡ some role_admin)

-- Changes of the accounts that take no name's role away.
pub keep-IsGoverned :
    (us vs : List User) (m : SessionManager)
    → ((n r : Text) → role_of n us ≡ some r → role_of n vs ≡ some r)
    → IsGoverned us m
    → IsGoverned vs m
keep-IsGoverned us vs m f g = record {
  owned = All-map m.sessions (λ e h. f e.1.username e.1.role h) g.owned;
  admin = let (name, h) = g.admin in (name, f name role_admin h);
}

pub get-IsGoverned :
    (us : List User) (m : SessionManager) (id : Text) (now : ℕ)
    → IsGoverned us m
    → IsGoverned us (get m id now).1
unfolding get
get-IsGoverned us m id now g = elim (Option-cases (lookup id m.sessions)) [
  | inl f ↦ rw (get, f) g
  | inr (s, f) ↦ elim (Bool-cases (ltb s.expires now)) [
    | inl y ↦
        rw (get, f, y)
          (record { owned = delete-AllValues (Owns us) id m.sessions g.owned; admin = g.admin })
    | inr n ↦
        rw (get, f, n)
          (record {
            owned =
                insert-AllValues (Owns us) id _ m.sessions
                  (lookup-AllValues (Owns us) id s m.sessions f g.owned) g.owned;
            admin = g.admin;
          })
  ]
]

pub get-Owns :
    (us : List User) (m : SessionManager) (id : Text) (now : ℕ) (s : Session)
    → (get m id now).0 ≡ some s
    → IsGoverned us m
    → Owns us s
unfolding get
get-Owns us m id now s h g = elim (Option-cases (lookup id m.sessions)) [
  | inl f ↦ absurd (cc (rw (get, f) at h))
  | inr (t, f) ↦ elim (Bool-cases (ltb t.expires now)) [
    | inl y ↦ absurd (cc (rw (get, f, y) at h))
    | inr n ↦
        let e : record t { expires = now + m.idle_timeout } ≡ s = cc (rw (get, f, n) at h) in
        subst (Owns us) e (lookup-AllValues (Owns us) id t m.sessions f g.owned)
  ]
]
