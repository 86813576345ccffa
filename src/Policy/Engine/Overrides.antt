-- ===== src/Policy/Engine/Overrides.antt =====
-- How long a temporary override holds.
use mirage_chaff.Base.{
  ℕ, ◌+◌, ◌≤◌, ◌<◌, ◌≡◌, refl, ◌∙◌, subst, ap, List, [], ◌∷◌, ◌++◌, true, none, some, ltb,
  Bool-cases, Option-cases, inl, inr, ◌⊎◌, arith, lt→ltb, le→ltb, All, tests,
}
use mirage_chaff.Base.Text.{Text, codes, text_eq, text_eq_iff}
use mirage_chaff.Base.Dict.{lookup, text_key, lookup-insert_self, lookup-delete}
use mirage_chaff.Policy.Rules.{match_request}
use mirage_chaff.Policy.Engine.{TempRule, Engine, add_temp_rule, temp_for, decide, note_unmatched}

pub record Request : Type 0 where
  pub domain : Text
  pub path : Text
  pub method : Text
  pub now : ℕ

-- Requests in order.
abbrev pub decides : Engine → List Request → Engine
decides e [] = e
decides e (r ∷ rs) = decides (decide e r.domain r.path r.method r.now).1 rs

-- What a decision does to the overrides of the engine and to its rules.
record Kept (e e' : Engine) (domain : Text) (now : ℕ) : Type 0 where
  rules : e'.rs ≡ e.rs
  temps :
      (k : Text)
      → (lookup k e'.temps ≡ lookup k e.temps)
        ⊎ ((lookup k e'.temps ≡ none)
            × ((t : TempRule) × (lookup k e.temps ≡ some t) × (t.expires < now)))

temp_for-Kept : (e : Engine) (domain : Text) (now : ℕ) → Kept e (temp_for e domain now).1 domain now
unfolding temp_for
temp_for-Kept e domain now = elim (Option-cases (lookup domain e.temps)) [
  | inl f ↦ rw (temp_for, f) (record { rules = refl; temps = λ k. inl refl })
  | inr (t, f) ↦ elim (Bool-cases (ltb t.expires now)) [
    | inr n ↦ rw (temp_for, f, n) (record { rules = refl; temps = λ k. inl refl })
    | inl y ↦
        rw (temp_for, f, y)
          (record {
            rules = refl;
            temps = λ k. elim (Bool-cases (text_eq domain k)) [
              | inl same ↦ inr (
                rw (lookup-delete domain k e.temps, same) refl,
                (
                  t,
                  subst (λ k. lookup k e.temps ≡ some t) ((text_eq_iff domain k).0 same) f,
                  omega tests,
                ),
              )
              | inr other ↦ inl (rw (lookup-delete domain k e.temps, other) refl)
            ];
          })
  ]
]

decide-Kept :
    (e : Engine) (r : Request) → Kept e (decide e r.domain r.path r.method r.now).1 r.domain r.now
unfolding decide note_unmatched
decide-Kept e r =
    let (f, e') = temp_for e r.domain r.now in
    let kept = temp_for-Kept e r.domain r.now in
    elim (Option-cases (temp_for e r.domain r.now).0) [
      | inr (d, h) ↦ rw (decide, h) kept
      | inl h ↦
          elim (Bool-cases
            (match_request (temp_for e r.domain r.now).1.rs r.domain r.path r.method).matched) [
              | inl y ↦ rw (decide, h, note_unmatched, y) kept
              | inr n ↦
                  rw (decide, h, note_unmatched, n)
                    (record { rules = kept.rules; temps = kept.temps })
            ]
    ]

pub decide-rules :
    (e : Engine) (domain path method : Text) (now : ℕ)
    → (decide e domain path method now).1.rs ≡ e.rs
decide-rules e domain path method now =
    (decide-Kept e (record { domain = domain; path = path; method = method; now = now })).rules

decides-rules : (e : Engine) (rs : List Request) → (decides e rs).rs ≡ e.rs
decides-rules e [] = refl
decides-rules e (r ∷ rs) =
    decides-rules (decide e r.domain r.path r.method r.now).1 rs ∙ (decide-Kept e r).rules

decides-live :
    (e : Engine) (rs : List Request) (domain : Text) (t : TempRule)
    → lookup domain e.temps ≡ some t
    → All (λ (r : Request). r.now ≤ t.expires) rs
    → lookup domain (decides e rs).temps ≡ some t
decides-live e [] domain t h a = h
decides-live e (r ∷ rs) domain t h a =
    decides-live (decide e r.domain r.path r.method r.now).1 rs domain t
      (elim ((decide-Kept e r).temps domain) [
        | inl same ↦ same ∙ h
        | inr (gone, (u, f, past)) ↦
            let eq : u ≡ t = ground (arith, f, h) in
            absurd (omega (arith, a.0, subst (λ (u : TempRule). u.expires < r.now) eq past))
      ])
      a.1

-- An override of the domain, if there is one, expires at `at`.
abbrev Ends : Text → ℕ → Engine → Type 0
Ends domain at e =
    (lookup domain e.temps ≡ none)
    ⊎ ((t : TempRule) × (lookup domain e.temps ≡ some t) × (t.expires ≡ at))

decides-Ends :
    (e : Engine) (rs : List Request) (domain : Text) (at : ℕ)
    → Ends domain at e
    → Ends domain at (decides e rs)
decides-Ends e [] domain at h = h
decides-Ends e (r ∷ rs) domain at h =
    decides-Ends (decide e r.domain r.path r.method r.now).1 rs domain at
      (elim ((decide-Kept e r).temps domain) [
        | inr (gone, rest) ↦ inl gone
        | inl same ↦ elim h [ inl gone ↦ inl (same ∙ gone) | inr (t, f, x) ↦ inr (t, same ∙ f, x) ]
      ])

Ends-none :
    (e : Engine) (domain : Text) (at now : ℕ)
    → Ends domain at e
    → at < now
    → (temp_for e domain now).0 ≡ none
unfolding temp_for
Ends-none e domain at now h p = elim h [
  | inl f ↦ rw (temp_for, f) refl
  | inr (t, f, x) ↦ rw (temp_for, f, lt→ltb t.expires now (omega (arith, x, p))) refl
]

decide-none :
    (e : Engine) (domain path method : Text) (now : ℕ)
    → (temp_for e domain now).0 ≡ none
    → (decide e domain path method now).0 ≡ match_request e.rs domain path method
unfolding decide
decide-none e domain path method now h =
    rw (decide, h) (ap (λ r. match_request r domain path method) (temp_for-Kept e domain now).rules)

module _ (e : Engine) (domain action catalog path method : Text) (ttl start now : ℕ)
    (rs : List Request) where
  abbrev pub overridden : Engine
  overridden = add_temp_rule e domain action catalog ttl start

  -- A temporary override of a domain decides every request for it up to its expiry, whatever the
  -- rules say and whatever requests came since, none of them later than the expiry.
  pub override_holds :
      All (λ (r : Request). r.now ≤ start + ttl) rs
      → now ≤ start + ttl
      → (decide (decides overridden rs) domain path method now).0 ≡ record {
        action = action;
        catalog = catalog;
        rule = codes "temp:" ++ domain;
        matched = true;
      }
  unfolding add_temp_rule decide temp_for
  override_holds a h =
      let live = decides-live overridden rs domain _ (lookup-insert_self domain _ e.temps) a in
      rw (decide, temp_for, live, le→ltb (start + ttl) now h) refl

  -- After its expiry the rules decide again, whatever requests came since.
  pub override_over :
      start + ttl < now
      → (decide (decides overridden rs) domain path method now).0
        ≡ match_request e.rs domain path method
  unfolding add_temp_rule
  override_over h =
      let ends =
        decides-Ends overridden rs domain (start + ttl)
          (inr (_, lookup-insert_self domain _ e.temps, refl)) in
      decide-none (decides overridden rs) domain path method now
        (Ends-none _ domain (start + ttl) now ends h)
      ∙ ap (λ r. match_request r domain path method) (decides-rules overridden rs)
