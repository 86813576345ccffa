-- ===== src/Admin/Accounts/Governed.antt =====
-- internal/admin: what the handlers keep of the accounts and the sessions.
use mirage_chaff.Base.{ℕ, ◌≡◌, ◌≢◌, refl, sym, subst, [], true, Option-cases, inl, inr}
use mirage_chaff.Base.Text.{Text}
use mirage_chaff.Base.Dict.{text_key}
use mirage_chaff.Admin.Sessions.{Session, get}
use mirage_chaff.Admin.Users.{StoreData, can}
use mirage_chaff.Admin.Access.{
  AdminState, AdminRequest, Access, unauthorized, bad_csrf, change_required, missing_capability,
  granted, with_auth, handle_access, behind,
}
use mirage_chaff.Admin.Access.Demands.{can_iff}
use mirage_chaff.Admin.Access.Granted.{with_auth_iff}
use mirage_chaff.Admin.Accounts.Owned.{IsGoverned, Owns, get-IsGoverned, lookup-AllValues}

abbrev pub Governed : AdminState → Type 0
Governed a = IsGoverned a.store.users a.sess

-- What a granted session has.
pub record Grants (capability : Text) (a : AdminState) (s : Session) : Type 0 where
  pub owns : Owns a.store.users s
  pub has : capability ≢ [] → can s.role capability ≡ true

module _ (capability : Text) (r : AdminRequest) (now : ℕ) where
  with_auth-Governed : (a : AdminState) → Governed a → Governed (with_auth capability r now a).1
  unfolding with_auth
  with_auth-Governed a g = elim (Option-cases r.cookie) [
    | inl c ↦ rw (with_auth, c) g
    | inr (id, c) ↦ elim (Option-cases (get a.sess id now).0) [
      | inl f ↦ rw (with_auth, c, f) (get-IsGoverned a.store.users a.sess id now g)
      | inr (s, f) ↦ rw (with_auth, c, f) (get-IsGoverned a.store.users a.sess id now g)
    ]
  ]

  with_auth-store : (a : AdminState) → (with_auth capability r now a).1.store ≡ a.store
  unfolding with_auth
  with_auth-store a = elim (Option-cases r.cookie) [
    | inl c ↦ rw (with_auth, c) refl
    | inr (id, c) ↦ elim (Option-cases (get a.sess id now).0) [
      | inl f ↦ rw (with_auth, c, f) refl
      | inr (s, f) ↦ rw (with_auth, c, f) refl
    ]
  ]

  with_auth-Grants :
      (a : AdminState) (s : Session)
      → Governed a
      → (with_auth capability r now a).0 ≡ granted s
      → Grants capability (with_auth capability r now a).1 s
  with_auth-Grants a s g h =
      let (l, p) = (with_auth_iff capability r now a s).0 h in
      let us = a.store.users in
      let owned = lookup-AllValues (Owns us) l.id l.stored a.sess.sessions l.found g.owned in
      record {
        owns =
            subst (λ (d : StoreData). Owns d.users s) (sym (with_auth-store a))
              (subst (Owns us) l.renewed owned);
        has = λ q. (can_iff s.role capability).1 (p.capability_ok q);
      }

  -- A handler keeps what it finds, given a session that the request was granted.
  abbrev pub Keeps : (Session → AdminState → ℕ × AdminState) → Type 0
  Keeps handler =
      (s : Session) (a : AdminState) → Governed a → Grants capability a s → Governed (handler s a).1

  handle_access-Governed :
      (handler : Session → AdminState → ℕ × AdminState) (access : Access) (a : AdminState)
      → Keeps handler
      → Governed a
      → ((s : Session) → access ≡ granted s → Grants capability a s)
      → Governed (handle_access handler access a).1
  unfolding handle_access
  handle_access-Governed handler unauthorized a k g f = g
  handle_access-Governed handler bad_csrf a k g f = g
  handle_access-Governed handler change_required a k g f = g
  handle_access-Governed handler missing_capability a k g f = g
  handle_access-Governed handler (granted s) a k g f = k s a g (f s refl)

  pub behind-Governed :
      (handler : Session → AdminState → ℕ × AdminState) (a : AdminState)
      → Keeps handler
      → Governed a
      → Governed (behind capability r now handler a).1
  unfolding behind
  behind-Governed handler a k g =
      handle_access-Governed handler (with_auth capability r now a).0
        (with_auth capability r now a).1 k (with_auth-Governed a g)
        (λ s h. with_auth-Grants a s g h)
