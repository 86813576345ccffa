-- ===== src/RuleCatalog/Lookup.antt =====
-- What the lookup finds.
use mirage_chaff.Base.{
  ℕ, ◌≤◌, ◌≡◌, refl, List, [], ◌∷◌, Option, none, some, All, Bool-cases, Option-cases, inl, inr,
  arith, subst, sym, ap, ◌∙◌, ◌⊎◌, true, false,
}
use mirage_chaff.Base.Text.{Text, to_lower}
use mirage_chaff.Policy.Rules.{trim_dot}
use mirage_chaff.RuleCatalog.{CatalogEntry, score, beats, best_entry, entry_of, lookup_entry}

-- A score of at most `n`, or none.
abbrev AtMost : ℕ → Option ℕ → Type 0
AtMost n none = Unit {0}
AtMost n (some m) = m ≤ n

abbrev pub IsIn : CatalogEntry → List CatalogEntry → Type 0
IsIn e [] = ⊥
IsIn e (f ∷ fs) = (e ≡ f) ⊎ IsIn e fs

-- No entry has a higher score.
abbrev pub IsTop : Text → Text → ℕ → List CatalogEntry → Type 0
IsTop domain path n es = All (λ f. AtMost n (score domain path f)) es

abbrev score_of : Option (ℕ × CatalogEntry) → Option ℕ
score_of none = none
score_of (some (n, e)) = some n

-- What the loop gives, from the best so far and the entries left.
data Outcome (domain path : Text) (so_far : Option (ℕ × CatalogEntry)) (es : List CatalogEntry)
    : Option (ℕ × CatalogEntry) → Type 0 where
  nothing :
      so_far ≡ none → All (λ e. score domain path e ≡ none) es → Outcome domain path so_far es none
  found :
      (n : ℕ) (e : CatalogEntry)
      → (so_far ≡ some (n, e)) ⊎ ((score domain path e ≡ some n) × IsIn e es)
      → AtMost n (score_of so_far)
      → IsTop domain path n es
      → Outcome domain path so_far es (some (n, e))

best_entry-skip :
    (domain path : Text) (b : Option (ℕ × CatalogEntry)) (e : CatalogEntry) (es : List CatalogEntry)
    (r : Option (ℕ × CatalogEntry))
    → score domain path e ≡ none
    → Outcome domain path b es r
    → Outcome domain path b (e ∷ es) r
best_entry-skip domain path b e es _ h (nothing x a) = nothing x (h, a)
best_entry-skip domain path b e es _ h (found n f w l t) =
    found n f (elim w [ inl x ↦ inl x | inr (s, i) ↦ inr (s, inr i) ]) l (rw h (tt, t))

beaten :
    (m n : ℕ) (b : Option (ℕ × CatalogEntry)) → beats m b ≡ true → m ≤ n → AtMost n (score_of b)
unfolding beats
beaten m n none y l = tt
beaten m n (some (k, g)) y l = ground (arith, y, l)

-- The entry beats what was best.
best_entry-take :
    (domain path : Text) (b : Option (ℕ × CatalogEntry)) (m : ℕ) (e : CatalogEntry)
    (es : List CatalogEntry) (r : Option (ℕ × CatalogEntry))
    → score domain path e ≡ some m
    → beats m b ≡ true
    → Outcome domain path (some (m, e)) es r
    → Outcome domain path b (e ∷ es) r
best_entry-take domain path b m e es _ h y (nothing x a) = absurd cc
best_entry-take domain path b m e es _ h y (found n f w l t) =
    found n f
      (elim w [
        | inl x ↦
            let pair : (m, e) ≡ (n, f) = cc in
            let num : m ≡ n = ap (λ (p : ℕ × CatalogEntry). p.0) pair in
            let ent : e ≡ f = ap (λ (p : ℕ × CatalogEntry). p.1) pair in
            inr (subst (λ g. score domain path g ≡ some n) ent (h ∙ ap some num), inl (sym ent))
        | inr (s, i) ↦ inr (s, inr i)
      ])
      (beaten m n b y l) (rw h (l, t))

best_entry-keep :
    (domain path : Text) (b : Option (ℕ × CatalogEntry)) (m : ℕ) (e : CatalogEntry)
    (es : List CatalogEntry) (r : Option (ℕ × CatalogEntry))
    → score domain path e ≡ some m
    → beats m b ≡ false
    → Outcome domain path b es r
    → Outcome domain path b (e ∷ es) r
unfolding beats
best_entry-keep domain path none m e es _ h y o = absurd cc
best_entry-keep domain path (some (k, g)) m e es _ h y (nothing x a) = absurd cc
best_entry-keep domain path (some (k, g)) m e es _ h y (found n f w l t) =
    found n f (elim w [ inl x ↦ inl x | inr (s, i) ↦ inr (s, inr i) ]) l
      (rw h (ground (arith, y, l), t))

best_entry-Outcome :
    (domain path : Text) (b : Option (ℕ × CatalogEntry)) (es : List CatalogEntry)
    → Outcome domain path b es (best_entry domain path b es)
unfolding best_entry
best_entry-Outcome domain path none [] = nothing refl tt
best_entry-Outcome domain path (some (n, e)) [] = found n e (inl refl) (omega arith) tt
best_entry-Outcome domain path b (e ∷ es) = elim (Option-cases (score domain path e)) [
  | inl h ↦
      rw (best_entry, h)
        (best_entry-skip domain path b e es _ h (best_entry-Outcome domain path b es))
  | inr (m, h) ↦ elim (Bool-cases (beats m b)) [
    | inl y ↦
        rw (best_entry, h, y)
          (best_entry-take domain path b m e es _ h y
            (best_entry-Outcome domain path (some (m, e)) es))
    | inr n ↦
        rw (best_entry, h, n)
          (best_entry-keep domain path b m e es _ h n (best_entry-Outcome domain path b es))
  ]
]

-- The best of the entries: one of them that matches, and none has a higher score; or none matches.
pub data Best (domain path : Text) (es : List CatalogEntry) : Option CatalogEntry → Type 0 where
  no_match : All (λ e. score domain path e ≡ none) es → Best domain path es none
  best :
      (e : CatalogEntry) (n : ℕ)
      → score domain path e ≡ some n
      → IsIn e es
      → IsTop domain path n es
      → Best domain path es (some e)

Outcome-Best :
    (domain path : Text) (es : List CatalogEntry) (r : Option (ℕ × CatalogEntry))
    → Outcome domain path none es r
    → Best domain path es (entry_of r)
Outcome-Best domain path es _ (nothing x a) = no_match a
Outcome-Best domain path es _ (found n e w l t) = elim w [
  | inl x ↦ absurd (none_some x)
  | inr (s, i) ↦ best e n s i t
]
  where
    none_some : {x : ℕ × CatalogEntry} → ◌≡◌ {A = Option (ℕ × CatalogEntry)} none (some x) → ⊥
    none_some h = cc

-- The lookup gives an entry that matches the request and has the highest score of all, whatever the
-- order in which the map is gone through, and nothing when no entry matches.
pub lookup_entry-Best :
    (domain path : Text) (es : List CatalogEntry)
    → Best (to_lower (trim_dot domain)) path es (lookup_entry domain path es)
unfolding lookup_entry
lookup_entry-Best domain path es =
    Outcome-Best (to_lower (trim_dot domain)) path es _
      (best_entry-Outcome (to_lower (trim_dot domain)) path none es)
