-- ===== src/Observability/Redact/Query.antt =====
-- internal/observability/record.go: what RedactURL leaves of a query.
use mirage_chaff.Base.{
  ◌≡◌, refl, ap, ap₂, sym, ◌∙◌, ℕ, true, false, List, [], ◌∷◌, ◌++◌, map, Option, none, some, All,
  append_assoc, inl, inr, ◌⊎◌, Bool-cases, Option-cases, ◌==◌, arith,
}
use mirage_chaff.Base.Text.{Text, codes}
use mirage_chaff.Managed.Types.{or_else}
use mirage_chaff.Managed.Conflicts.{sorted_keys}
use mirage_chaff.Observability.Redact.{
  cut_at, in_first, split_at, has_byte, query_unescape, setting_key, setting_keys, redacted,
  redact_query, redact_url, redact_cut, decode_setting, key_with,
}

-- Texts with a byte between them.
pub joined : ℕ → List Text → Text
joined c [] = []
joined c (t ∷ []) = t
joined c (t ∷ next ∷ ts) = t ++ (c ∷ joined c (next ∷ ts))

-- The name and the value of a setting, which end at and begin behind its first equals sign; without one,
-- all is the name.
abbrev pub Splits : Text → Text → Text → Type 0
Splits part name value =
    (has_byte b'=' name ≡ false) × (((part ≡ name) × (value ≡ [])) ⊎ (part ≡ name ++ b'=' ∷ value))

-- A part that has no error, and its key: an empty part has none.
abbrev pub Reads : Text → Option Text → Type 0
Reads part key =
    ((part ≡ []) × (key ≡ none))
    ⊎ ((has_byte b';' part ≡ false)
        × ((name : Text) × (value : Text) × (k : Text) × (v : Text) × Splits part name value
            × (query_unescape name ≡ some k)
            × (query_unescape value ≡ some v)
            × (key ≡ some k)))

-- A part with an error: a semicolon, or an escape that does not decode.
abbrev pub IsMalformed : Text → Type 0
IsMalformed part =
    (has_byte b';' part ≡ true)
    ⊎ ((name : Text) × (value : Text) × Splits part name value
        × ((query_unescape name ≡ none) ⊎ (query_unescape value ≡ none)))

pub AllRead : List Text → List (Option Text) → Type 0
AllRead [] [] = Unit {0}
AllRead [] (k ∷ ks) = ⊥
AllRead (p ∷ ps) [] = ⊥
AllRead (p ∷ ps) (k ∷ ks) = Reads p k × AllRead ps ks

pub SomeMalformed : List Text → Type 0
SomeMalformed [] = ⊥
SomeMalformed (p ∷ ps) = IsMalformed p ⊎ SomeMalformed ps

pub present : List (Option Text) → List Text
present [] = []
present (none ∷ ks) = present ks
present (some k ∷ ks) = k ∷ present ks

abbrev pub hidden : Text → Text
hidden key = key ++ codes "=REDACTED"

-- What is to be shown of a query with these parts: the keys, or that there was a query.
abbrev pub Shown : List Text → Text → Type 0
Shown parts shown =
    ((ks : List (Option Text)) × AllRead parts ks
      × (shown ≡ joined b'&' (map hidden (sorted_keys (present ks)))))
    ⊎ (SomeMalformed parts × (shown ≡ codes "REDACTED"))

cut_at-found :
    (c : ℕ) (xs ys : Text) → has_byte c xs ≡ false → cut_at c (xs ++ c ∷ ys) ≡ (xs, some ys)
unfolding cut_at has_byte
cut_at-found c [] ys h = ground arith
cut_at-found c (x ∷ xs) ys h = elim (Bool-cases (x == c)) [
  | inl e ↦ absurd (ground (arith, e, h))
  | inr e ↦ rw (e, cut_at-found c xs ys (rw e at h))
]

cut_at-Splits : (part : Text) → Splits part (cut_at b'=' part).0 (or_else (cut_at b'=' part).1 [])
unfolding cut_at has_byte
cut_at-Splits [] = (refl, inl (refl, refl))
cut_at-Splits (b ∷ bs) = elim (Bool-cases (b == b'=')) [
  | inl e ↦ let q : b ≡ b'=' = ground (arith, e) in rw (cut_at, e) (refl, inr (ap (λ x. x ∷ bs) q))
  | inr e ↦
      let (plain, parts) = cut_at-Splits bs in
      rw (cut_at, e)
        (rw e plain, elim parts [ inl (p, v) ↦ inl (ap (◌∷◌ b) p, v) | inr p ↦ inr (ap (◌∷◌ b) p) ])
]

-- Every query is its parts.
joined-in_first : (c b : ℕ) (ts : List Text) → joined c (in_first b ts) ≡ b ∷ joined c ts
unfolding joined in_first
joined-in_first c b [] = refl
joined-in_first c b (t ∷ []) = refl
joined-in_first c b (t ∷ next ∷ ts) = refl

joined-in_first_nil :
    (c b : ℕ) (ts : List Text) → joined c ([] ∷ in_first b ts) ≡ c ∷ joined c (in_first b ts)
unfolding joined in_first
joined-in_first_nil c b [] = refl
joined-in_first_nil c b (t ∷ ts) = refl

joined-nil : (c : ℕ) (q : Text) → joined c ([] ∷ split_at c q) ≡ c ∷ joined c (split_at c q)
unfolding joined split_at in_first
joined-nil c [] = refl
joined-nil c (b ∷ q) = elim (Bool-cases (b == c)) [
  | inl e ↦ rw (split_at, e) refl
  | inr e ↦ rw (split_at, e) (joined-in_first_nil c b (split_at c q))
]

joined-split_at : (c : ℕ) (q : Text) → joined c (split_at c q) ≡ q
unfolding split_at joined
joined-split_at c [] = refl
joined-split_at c (b ∷ q) = elim (Bool-cases (b == c)) [
  | inl e ↦
      let same : b ≡ c = ground (arith, e) in
      rw (split_at, e) (joined-nil c q ∙ ap₂ (◌∷◌) (sym same) (joined-split_at c q))
  | inr e ↦ rw (split_at, e) (joined-in_first c b (split_at c q) ∙ ap (◌∷◌ b) (joined-split_at c q))
]

split_at-All : (c : ℕ) (q : Text) → All (λ p. has_byte c p ≡ false) (split_at c q)
unfolding split_at has_byte in_first
split_at-All c [] = (refl, tt)
split_at-All c (b ∷ q) = elim (Bool-cases (b == c)) [
  | inl e ↦ rw (split_at, e) (refl, split_at-All c q)
  | inr e ↦ rw (split_at, e) (in_first-All e (split_at c q) (split_at-All c q))
]
  where
    in_first-All :
        (b == c) ≡ false
        → (ps : List Text) → All (λ p. has_byte c p ≡ false) ps
        → All (λ p. has_byte c p ≡ false) (in_first b ps)
    in_first-All e [] h = (rw (has_byte, e) refl, tt)
    in_first-All e (p ∷ ps) h = (rw (has_byte, e) h.0, h.1)

setting_key-cases :
    (part : Text)
    → ((key : Option Text) × (setting_key part ≡ some key) × Reads part key)
      ⊎ ((setting_key part ≡ none) × IsMalformed part)
unfolding setting_key decode_setting key_with
setting_key-cases [] = inl (none, refl, inl (refl, refl))
setting_key-cases (b ∷ bs) = elim (Bool-cases (has_byte b';' (b ∷ bs))) [
  | inl e ↦ inr (rw (setting_key, e) refl, inl e)
  | inr e ↦
      let cut = cut_at b'=' (b ∷ bs) in
      let value = or_else cut.1 [] in
      let split = cut_at-Splits (b ∷ bs) in
      elim (Option-cases (query_unescape cut.0)) [
        | inl f ↦
            inr (rw (setting_key, e, decode_setting, f) refl, inr (cut.0, value, split, inl f))
        | inr (k, f) ↦ elim (Option-cases (query_unescape value)) [
          | inl g ↦
              inr (rw (setting_key, e, decode_setting, f, g) refl, inr (cut.0, value, split, inr g))
          | inr (v, g) ↦ inl (
            some k,
            rw (setting_key, e, decode_setting, f, g) refl,
            inr (e, (cut.0, value, k, v, split, f, g, refl)),
          )
        ]
      ]
]

setting_keys-cases :
    (parts : List Text)
    → ((ks : List (Option Text)) × AllRead parts ks × (setting_keys parts ≡ some (present ks)))
      ⊎ (SomeMalformed parts × (setting_keys parts ≡ none))
unfolding setting_keys AllRead SomeMalformed present
setting_keys-cases [] = inl ([], tt, refl)
setting_keys-cases (p ∷ ps) = elim (setting_key-cases p) [
  | inr (e, bad) ↦ inr (inl bad, rw (setting_keys, e) refl)
  | inl (key, e, good) ↦ elim (setting_keys-cases ps) [
    | inr (bad, f) ↦ inr (inr bad, rw (setting_keys, e, f) refl)
    | inl (ks, goods, f) ↦
        inl (key ∷ ks, (good, goods), rw (setting_keys, e, f) (ap some (added key ks)))
  ]
]
  where
    added :
        (key : Option Text) (ks : List (Option Text))
        → (elim key [ none ↦ present ks | some k ↦ k ∷ present ks ]) ≡ present (key ∷ ks)
    added none ks = refl
    added (some k) ks = refl

redacted-joined : (keys : List Text) → redacted keys ≡ joined b'&' (map hidden keys)
unfolding redacted joined
redacted-joined [] = refl
redacted-joined (k ∷ []) = refl
redacted-joined (k ∷ next ∷ keys) =
    ap (λ t. k ++ (codes "=REDACTED" ++ (b'&' ∷ t))) (redacted-joined (next ∷ keys))
    ∙ sym (append_assoc k (codes "=REDACTED") (b'&' ∷ joined b'&' (map hidden (next ∷ keys))))

-- Every URL with a query, which is what is behind its first question mark, is shown with its path and
-- of the query nothing but the keys, decoded, each once and in order and with `=REDACTED` for a value;
-- or nothing but `REDACTED`, where a part of the query has a semicolon or an escape that does not
-- decode. The parts are what the separators `&` divide the query into.
pub redact_url-query :
    (path query : Text)
    → has_byte b'?' path ≡ false
    → (parts : List Text) × (shown : Text) × (query ≡ joined b'&' parts)
      × All (λ p. has_byte b'&' p ≡ false) parts
      × (redact_url (path ++ b'?' ∷ query) ≡ path ++ b'?' ∷ shown)
      × Shown parts shown
unfolding redact_url redact_cut redact_query
redact_url-query path query plain =
    let parts = split_at b'&' query in
    let found = cut_at-found b'?' path query plain in
    (
      parts,
      redact_query (setting_keys parts),
      sym (joined-split_at b'&' query),
      split_at-All b'&' query,
      rw (redact_url, found) refl,
      elim (setting_keys-cases parts) [
        | inl (ks, good, e) ↦
            inl (ks, good, ap redact_query e ∙ redacted-joined (sorted_keys (present ks)))
        | inr (bad, e) ↦ inr (bad, ap redact_query e)
      ],
    )
