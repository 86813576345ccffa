-- ===== src/Admin/Accounts/Roles.antt =====
-- internal/admin/store.go: what the changes of the accounts do to the role that a name has.
use mirage_chaff.Base.{
  ℕ, ◌≡◌, refl, ◌∙◌, ap, sym, subst, List, [], ◌∷◌, ◌++◌, false, Option, none, some, Bool-cases,
  Option-cases, inl, inr, arith, if◌then◌else◌,
}
use mirage_chaff.Base.Text.{Text, text_eq, text_eq_iff}
use mirage_chaff.Base.Dict.{text_key}
use mirage_chaff.Admin.Users.{User, find_user, replace_user, upsert, delete_user, set_password}

-- The role of the account of a name.
abbrev pub role_in : Option User → Option Text
role_in none = none
role_in (some u) = some u.role

abbrev pub role_of : Text → List User → Option Text
role_of name us = role_in (find_user name us)

role_of-cons :
    (n : Text) (u : User) (us : List User)
    → role_of n (u ∷ us) ≡ (if text_eq u.username n then some u.role else role_of n us)
unfolding find_user
role_of-cons n u us = elim (Bool-cases (text_eq u.username n)) [
  | inl y ↦ rw (find_user, y) refl
  | inr k ↦ rw (find_user, k) refl
]

pub role_of-delete_user :
    (n m : Text) (us : List User)
    → text_eq m n ≡ false
    → role_of n (delete_user m us) ≡ role_of n us
unfolding find_user delete_user
role_of-delete_user n m [] h = refl
role_of-delete_user n m (u ∷ us) h = elim (Bool-cases (text_eq u.username m)) [
  | inr k ↦
      rw (delete_user, k)
        (role_of-cons n u (delete_user m us)
          ∙ ap (λ o. if text_eq u.username n then some u.role else o) (role_of-delete_user n m us h)
          ∙ sym (role_of-cons n u us))
  | inl y ↦
      let other : text_eq u.username n ≡ false =
        ground (arith, h, text_eq_iff u.username m, text_eq_iff m n, text_eq_iff u.username n) in
      rw (delete_user, y, find_user, other) (role_of-delete_user n m us h)
]

pub role_of-set_password :
    (n name hash : Text) (us us' : List User)
    → set_password name hash us ≡ some us'
    → role_of n us' ≡ role_of n us
unfolding find_user set_password
role_of-set_password n name hash [] us' h = absurd (cc)
role_of-set_password n name hash (u ∷ us) us' h = elim (Bool-cases (text_eq u.username name)) [
  | inl y ↦
      let e : record u { hash = hash; must_change = false } ∷ us ≡ us' =
        cc (rw (set_password, y) at h) in
      subst (λ xs. role_of n xs ≡ role_of n (u ∷ us)) e
        (role_of-cons n (record u { hash = hash; must_change = false }) us
          ∙ sym (role_of-cons n u us))
  | inr k ↦ elim (Option-cases (set_password name hash us)) [
    | inl f ↦ absurd (cc (rw (set_password, k, f) at h))
    | inr (vs, f) ↦
        let e : u ∷ vs ≡ us' = cc (rw (set_password, k, f) at h) in
        subst (λ xs. role_of n xs ≡ role_of n (u ∷ us)) e
          (role_of-cons n u vs
            ∙ ap (λ o. if text_eq u.username n then some u.role else o)
                (role_of-set_password n name hash us vs f)
            ∙ sym (role_of-cons n u us))
  ]
]

replace_user-none :
    (u : User) (us : List User) → find_user u.username us ≡ none → replace_user u us ≡ none
unfolding find_user replace_user
replace_user-none u [] h = refl
replace_user-none u (e ∷ us) h = elim (Bool-cases (text_eq e.username u.username)) [
  | inl y ↦ absurd (cc (rw (find_user, y) at h))
  | inr k ↦ rw (replace_user, k, replace_user-none u us (rw (find_user, k) at h)) refl
]

role_of-append :
    (n r : Text) (us vs : List User) → role_of n us ≡ some r → role_of n (us ++ vs) ≡ some r
unfolding find_user
role_of-append n r [] vs h = absurd (cc)
role_of-append n r (u ∷ us) vs h = elim (Bool-cases (text_eq u.username n)) [
  | inl y ↦ rw (find_user, y) (rw (find_user, y) at h)
  | inr k ↦ rw (find_user, k) (role_of-append n r us vs (rw (find_user, k) at h))
]

-- A new account takes no name's role away.
pub role_of-upsert :
    (n r : Text) (now : ℕ) (u : User) (us : List User)
    → find_user u.username us ≡ none
    → role_of n us ≡ some r
    → role_of n (upsert now u us) ≡ some r
unfolding upsert
role_of-upsert n r now u us f h = rw (upsert, replace_user-none u us f) (role_of-append n r us _ h)
