-- ===== src/Admin/Access/Granted.antt =====
-- internal/admin/admin.go: which requests `withAuth` lets through to their handler.
use mirage_chaff.Base.{
  ℕ, ◌+◌, ◌≤◌, ◌≡◌, ◌↔◌, refl, ap, sym, subst, List, [], true, false, not, some, Bool-cases,
  Option-cases, inl, inr, arith, ◌&&◌, ltb, le→ltb,
}
use mirage_chaff.Base.Text.{Text, text_eq, text_eq_iff}
use mirage_chaff.Base.Dict.{lookup, text_key}
use mirage_chaff.Admin.Sessions.{Session, get}
use mirage_chaff.Admin.Users.{User, find_user, can}
use mirage_chaff.Admin.Access.{
  AdminState, AdminRequest, granted, is_mutation, open_to_all, must_change_blocked, check_access,
  with_auth,
}
use mirage_chaff.Admin.Access.Demands.{
  Permits, find_user_iff, is_mutation_iff, open_to_all_iff, can_iff,
}

granted-injective : {s t : Session} → granted s ≡ granted t → s ≡ t
granted-injective h = cc

must_change_blocked_iff :
    (us : List User) (s : Session) (r : AdminRequest)
    → (must_change_blocked us s r ≡ false) ↔ (
        (u : User) → find_user s.username us ≡ some u → u.must_change ≡ true → open_to_all r ≡ true)
unfolding must_change_blocked
must_change_blocked_iff us s r = elim (Option-cases (find_user s.username us)) [
  | inl f ↦ ((λ h u k m. absurd (cc)), (λ h. rw (must_change_blocked, f) refl))
  | inr (v, f) ↦ (
    (λ h u k m.
        let e : v ≡ u = cc in
        let m' : v.must_change ≡ true = subst (λ (x : User). x.must_change ≡ true) (sym e) m in
        ground (arith, m', rw (must_change_blocked, f) at h)),
    (λ h.
        rw (must_change_blocked, f)
          (elim (Bool-cases v.must_change) [ inl y ↦ rw (y, h v f y) refl | inr n ↦ rw n refl ])),
  )
]

pub check_access_iff :
    (capability : Text) (us : List User) (r : AdminRequest) (s t : Session)
    → (check_access capability us r s ≡ granted t) ↔ ((s ≡ t) × Permits capability us r s)
unfolding check_access
check_access_iff capability us r s t = (
  (λ h. elim (Bool-cases (is_mutation r.method && not (text_eq r.csrf_header s.csrf))) [
    | inl y ↦ absurd (cc (rw (check_access, y) at h))
    | inr n ↦ elim (Bool-cases (must_change_blocked us s r)) [
      | inl y ↦ absurd (cc (rw (check_access, n, y) at h))
      | inr m ↦ elim (Bool-cases (not (text_eq capability []) && not (can s.role capability))) [
        | inl y ↦ absurd (cc (rw (check_access, n, m, y) at h))
        | inr k ↦ (
          granted-injective (rw (check_access, n, m, k) at h),
          record {
            csrf_ok = λ g q.
                ground
                  (arith, n, (is_mutation_iff r.method).1 (g, q), text_eq_iff r.csrf_header s.csrf);
            change_ok = λ u a c.
                (open_to_all_iff r).0
                  ((must_change_blocked_iff us s r).0 m u ((find_user_iff s.username us u).1 a) c);
            capability_ok = λ q.
                (can_iff s.role capability).0 (ground (arith, k, q, text_eq_iff capability []));
          },
        )
      ]
    ]
  ]),
  (λ (e, p).
      let n : (is_mutation r.method && not (text_eq r.csrf_header s.csrf)) ≡ false =
        elim (Bool-cases (is_mutation r.method)) [
          | inl y ↦
              let (g, q) = (is_mutation_iff r.method).0 y in
              ground (arith, y, p.csrf_ok g q, text_eq_iff r.csrf_header s.csrf)
          | inr y ↦ ground (arith, y)
        ] in
      let k : (not (text_eq capability []) && not (can s.role capability)) ≡ false =
        elim (Bool-cases (text_eq capability [])) [
          | inl y ↦ ground (arith, y)
          | inr y ↦ ground (
            arith,
            y,
            (can_iff s.role capability).1
                (p.capability_ok (λ q. ground (arith, y, q, text_eq_iff capability []))),
          )
        ] in
      let m : must_change_blocked us s r ≡ false =
        (must_change_blocked_iff us s r).1 (λ u f c.
          (open_to_all_iff r).1 (p.change_ok u ((find_user_iff s.username us u).0 f) c)) in
      rw (check_access, n, m, k) (ap granted e)),
)

-- The session of the request's cookie, which has not expired, and whose expiry is moved on.
pub record Live (r : AdminRequest) (now : ℕ) (a : AdminState) (s : Session) : Type 0 where
  pub id : Text
  pub stored : Session
  pub cookie : r.cookie ≡ some id
  pub found : lookup id a.sess.sessions ≡ some stored
  pub in_time : now ≤ stored.expires
  pub renewed : record stored { expires = now + a.sess.idle_timeout } ≡ s

get-Live :
    (r : AdminRequest) (now : ℕ) (a : AdminState) (id : Text) (s : Session)
    → r.cookie ≡ some id
    → (get a.sess id now).0 ≡ some s
    → Live r now a s
unfolding get
get-Live r now a id s c h = elim (Option-cases (lookup id a.sess.sessions)) [
  | inl f ↦ absurd (cc (rw (get, f) at h))
  | inr (t, f) ↦ elim (Bool-cases (ltb t.expires now)) [
    | inl y ↦ absurd (cc (rw (get, f, y) at h))
    | inr n ↦ record {
      id = id;
      stored = t;
      cookie = c;
      found = f;
      in_time = ground (arith, n);
      renewed = cc (rw (get, f, n) at h);
    }
  ]
]

Live-get :
    (r : AdminRequest) (now : ℕ) (a : AdminState) (s : Session)
    → (l : Live r now a s) → (get a.sess l.id now).0 ≡ some s
unfolding get
Live-get r now a s l = rw (get, l.found, le→ltb l.stored.expires now l.in_time) (ap some l.renewed)

-- A request reaches its handler exactly when its cookie names a session that has not expired, its CSRF
-- header is the session's where the method is neither GET nor HEAD, its account's password need not be
-- changed first, unless the request is one of the three that are open then, and the session's role has
-- the handler's capability, where it asks for one.
pub with_auth_iff :
    (capability : Text) (r : AdminRequest) (now : ℕ) (a : AdminState) (s : Session)
    → ((with_auth capability r now a).0 ≡ granted s)
      ↔ (Live r now a s × Permits capability a.store.users r s)
unfolding with_auth
with_auth_iff capability r now a s = (
  (λ h. elim (Option-cases r.cookie) [
    | inl c ↦ absurd (cc (rw (with_auth, c) at h))
    | inr (id, c) ↦ elim (Option-cases (get a.sess id now).0) [
      | inl g ↦ absurd (cc (rw (with_auth, c, g) at h))
      | inr (t, g) ↦
          let (e, p) =
            (check_access_iff capability a.store.users r t s).0 (rw (with_auth, c, g) at h) in
          subst (λ s. Live r now a s × Permits capability a.store.users r s) e
            (get-Live r now a id t c g, p)
    ]
  ]),
  (λ (l, p).
      rw (with_auth, l.cookie, Live-get r now a s l)
        ((check_access_iff capability a.store.users r s s).1 (refl, p))),
)
