-- ===== src/Admin/Sessions/Expiry.antt =====
-- How long a session lives.
use mirage_chaff.Base.{
  ℕ, ◌+◌, ◌≤◌, ◌<◌, ◌≡◌, ◌≢◌, refl, ◌∙◌, ap, List, [], ◌∷◌, none, some, arith, Option-cases, inl,
  inr, lt→ltb, le→ltb,
}
use mirage_chaff.Base.Text.{Text, text_eq, text_eq_iff}
use mirage_chaff.Base.Dict.{
  lookup, delete_where, text_key, lookup-insert_self, lookup-delete, beq_refl,
  lookup-delete_where-some,
}
use mirage_chaff.Admin.Sessions.{SessionManager, Session, create, get, destroy_user}

-- Requests with one session id, in order.
abbrev pub visits : SessionManager → Text → List ℕ → SessionManager
visits m id [] = m
visits m id (t ∷ ts) = visits (get m id t).1 id ts

-- Each request comes no later than the expiry that the one before it set.
abbrev pub IsActive : ℕ → ℕ → List ℕ → Type 0
IsActive idle expires [] = Unit {0}
IsActive idle expires (t ∷ ts) = (t ≤ expires) × IsActive idle (t + idle) ts

-- The expiry after the requests.
abbrev pub expiry : ℕ → ℕ → List ℕ → ℕ
expiry idle expires [] = expires
expiry idle expires (t ∷ ts) = expiry idle (t + idle) ts

get-live :
    (m : SessionManager) (id : Text) (s : Session) (now : ℕ)
    → lookup id m.sessions ≡ some s
    → now ≤ s.expires
    → ((get m id now).0 ≡ some (record s { expires = now + m.idle_timeout }))
      × (lookup id (get m id now).1.sessions ≡ some (record s { expires = now + m.idle_timeout }))
      × ((get m id now).1.idle_timeout ≡ m.idle_timeout)
unfolding get
get-live m id s now e h =
    rw (e, get, le→ltb s.expires now h)
      (refl, lookup-insert_self id (record s { expires = now + m.idle_timeout }) m.sessions, refl)

get-expired :
    (m : SessionManager) (id : Text) (s : Session) (now : ℕ)
    → lookup id m.sessions ≡ some s
    → s.expires < now
    → ((get m id now).0 ≡ none) × (lookup id (get m id now).1.sessions ≡ none)
unfolding get
get-expired m id s now e h =
    rw (e, get, lt→ltb s.expires now h)
      (refl, rw (lookup-delete id id m.sessions, beq_refl {K = Text} id) refl)

get-gone :
    (m : SessionManager) (id : Text) (now : ℕ)
    → lookup id m.sessions ≡ none
    → get m id now ≡ (none, m)
unfolding get
get-gone m id now e = rw (e, get)

visits-active :
    (m : SessionManager) (id : Text) (s : Session) (ts : List ℕ)
    → lookup id m.sessions ≡ some s
    → IsActive m.idle_timeout s.expires ts
    → (lookup id (visits m id ts).sessions
        ≡ some (record s { expires = expiry m.idle_timeout s.expires ts }))
      × ((visits m id ts).idle_timeout ≡ m.idle_timeout)
visits-active m id s [] e a = (e, refl)
visits-active m id s (t ∷ ts) e a =
    let (_, found, same) = get-live m id s t e a.0 in
    let later =
      visits-active (get m id t).1 id (record s { expires = t + m.idle_timeout }) ts found
        (rw same a.1) in
    (
      later.0 ∙ ap (λ k. some (record s { expires = expiry k (t + m.idle_timeout) ts })) same,
      later.1 ∙ same,
    )

module _ (m : SessionManager) (user role id csrf : Text) (start now : ℕ) (ts : List ℕ)
    (active : IsActive m.idle_timeout (start + m.idle_timeout) ts) where
  abbrev created : SessionManager
  created = (create m user role id csrf start).1

  created-found :
      (lookup id (visits created id ts).sessions
        ≡ some (record {
          id = id;
          username = user;
          role = role;
          csrf = csrf;
          expires = expiry m.idle_timeout (start + m.idle_timeout) ts;
        }))
      × ((visits created id ts).idle_timeout ≡ m.idle_timeout)
  unfolding create
  created-found =
      visits-active created id
        (record {
          id = id;
          username = user;
          role = role;
          csrf = csrf;
          expires = start + m.idle_timeout;
        })
        ts (lookup-insert_self id _ m.sessions) active

  -- A session that is used before each expiry is still there, with its user, role and CSRF token
  -- as they were created, at any time up to its last expiry.
  pub session_lasts :
      now ≤ expiry m.idle_timeout (start + m.idle_timeout) ts
      → (get (visits created id ts) id now).0
        ≡ some (record {
          id = id;
          username = user;
          role = role;
          csrf = csrf;
          expires = now + m.idle_timeout;
        })
  session_lasts h =
      let (found, same) = created-found in
      (get-live (visits created id ts) id _ now found h).0
      ∙ ap
          (λ k.
            some (record { id = id; username = user; role = role; csrf = csrf; expires = now + k }))
          same

  -- After that it is refused, and so is every later request with its id.
  pub session_ends :
      expiry m.idle_timeout (start + m.idle_timeout) ts < now
      → ((get (visits created id ts) id now).0 ≡ none)
        × ((later : ℕ) → (get (get (visits created id ts) id now).1 id later).0 ≡ none)
  session_ends h =
      let (gone, absent) = get-expired (visits created id ts) id _ now created-found.0 h in
      (
        gone,
        λ later. ap (λ r. r.0) (get-gone (get (visits created id ts) id now).1 id later absent),
      )

-- When a user's sessions are dropped, no id leads to a session of that user any more.
pub destroy_user_ends :
    (m : SessionManager) (user id : Text) (now : ℕ) (s : Session)
    → (get (destroy_user m user) id now).0 ≡ some s
    → s.username ≢ user
unfolding get destroy_user
destroy_user_ends m user id now s e same =
    elim (Option-cases (lookup id (delete_where (λ s. text_eq s.username user) m.sessions))) [
      | inl x ↦ ground (arith, rw (get, x) at e)
      | inr (t, x) ↦ ground (
        arith,
        rw (get, x) at e,
        lookup-delete_where-some (λ s. text_eq s.username user) id m.sessions t x,
        text_eq_iff t.username user,
      )
    ]
