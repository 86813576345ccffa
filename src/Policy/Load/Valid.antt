-- ===== src/Policy/Load/Valid.antt =====
-- What is known of a ruleset that was loaded.
use mirage_chaff.Base.{
  ◌≡◌, ◌≢◌, subst, List, [], ◌∷◌, ◌++◌, true, false, not, ◌||◌, Option, none, some, if◌then◌else◌,
  All, All-append, All-map, Bool-cases, Option-cases, inl, inr, arith, append-nil, append_assoc,
}
use mirage_chaff.Base.Text.{Text, text_eq_iff}
use mirage_chaff.Policy.Rules.{
  RuleSource, Rule, Result, fails, is, one_of, valid_action, compile, Result-cases,
}
use mirage_chaff.Policy.Load.{
  PolicyFile, Default, Entry, Loading, load_rules, load_default, load_document, load_file,
  load_entries, is_yaml,
}

pub is-injective {ℓ κ} :
    {E : Type κ} {A : Type ℓ} {a b : A} → ◌≡◌ {A = Result E A} (is a) (is b) → a ≡ b
is-injective h = cc

pub fails_is {ℓ κ} :
    {E : Type κ} {A : Type ℓ} {e : E} {a : A} → ◌≡◌ {A = Result E A} (fails e) (is a) → ⊥
fails_is h = cc

-- The second list holds the first one's rules, compiled.
pub data Compiles : List RuleSource → List Rule → Type 0 where
  nothing : Compiles [] []
  one_more :
      {s : RuleSource} {ss : List RuleSource} {r : Rule} {rs : List Rule}
      → compile s ≡ is r
      → Compiles ss rs
      → Compiles (s ∷ ss) (r ∷ rs)

Compiles-snoc :
    {ss : List RuleSource} {rs : List Rule} (s : RuleSource) (r : Rule)
    → Compiles ss rs
    → compile s ≡ is r
    → Compiles (ss ++ (s ∷ [])) (rs ++ (r ∷ []))
Compiles-snoc s r nothing e = one_more e nothing
Compiles-snoc s r (one_more f c) e = one_more f (Compiles-snoc s r c e)

-- No two rules have one name.
abbrev pub Distinct : List Rule → Type 0
Distinct [] = Unit {0}
Distinct (r ∷ rs) = All (λ q. r.name ≢ q.name) rs × Distinct rs

Distinct-snoc :
    (rs : List Rule) (c : Rule)
    → Distinct rs
    → All (λ q. q.name ≢ c.name) rs
    → Distinct (rs ++ (c ∷ []))
Distinct-snoc [] c d a = (tt, tt)
Distinct-snoc (r ∷ rs) c d a =
    (All-append (λ q. r.name ≢ q.name) rs (c ∷ []) d.0 (a.0, tt), Distinct-snoc rs c d.1 a.1)

-- What holds of the loop's state once the rules `ss` are loaded.
pub record Loaded (ss : List RuleSource) (st : Loading) : Type 0 where
  pub compiled : Compiles ss st.rules
  pub named : All (λ q. one_of q.name st.names ≡ true) st.rules
  pub distinct : Distinct st.rules
  pub default_ok : valid_action st.default.action ≡ true

new_name :
    (c : Text) (names : List Text) (q : Rule)
    → one_of c names ≡ false
    → one_of q.name names ≡ true
    → q.name ≢ c
new_name c names q f t e = ground (arith, rw e at t)

Loaded-rule :
    (ss : List RuleSource) (st : Loading) (s : RuleSource) (c : Rule)
    → Loaded ss st
    → compile s ≡ is c
    → one_of c.name st.names ≡ false
    → Loaded
        (ss ++ (s ∷ []))
        (record st { names = c.name ∷ st.names; rules = st.rules ++ (c ∷ []) })
unfolding one_of
Loaded-rule ss st s c l e n = record {
  compiled = Compiles-snoc s c l.compiled e;
  named =
      All-append (λ q. one_of q.name (c.name ∷ st.names) ≡ true) st.rules (c ∷ [])
        (All-map st.rules (λ q h. ground (arith, h)) l.named)
        (ground (arith, text_eq_iff c.name c.name), tt);
  distinct =
      Distinct-snoc st.rules c l.distinct
        (All-map st.rules (λ q h. new_name c.name st.names q n h) l.named);
  default_ok = l.default_ok;
}

load_rules-Loaded :
    (file : Text) (rs ss : List RuleSource) (st st' : Loading)
    → load_rules file rs st ≡ is st'
    → Loaded ss st
    → Loaded (ss ++ rs) st'
unfolding load_rules
load_rules-Loaded file [] ss st st' e l = rw (append-nil ss) (subst (Loaded ss) (is-injective e) l)
load_rules-Loaded file (r ∷ rs) ss st st' e l = elim (Result-cases (compile r)) [
  | inl (x, f) ↦ absurd (fails_is (rw (load_rules, f) at e))
  | inr (c, f) ↦ elim (Bool-cases (one_of c.name st.names)) [
    | inl y ↦ absurd (fails_is (rw (load_rules, f, y) at e))
    | inr n ↦ rw (← append_assoc ss (r ∷ []) rs) (
        load_rules-Loaded file rs (ss ++ (r ∷ [])) _ st' (rw (load_rules, f, n) at e)
          (Loaded-rule ss st r c l f n))
  ]
]

load_default-Loaded :
    (file : Text) (d : Option Default) (ss : List RuleSource) (st st' : Loading)
    → load_default file d st ≡ is st'
    → Loaded ss st
    → Loaded ss st'
unfolding load_default
load_default-Loaded file none ss st st' e l = subst (Loaded ss) (is-injective e) l
load_default-Loaded file (some d) ss st st' e l = elim (Bool-cases (valid_action d.action)) [
  | inr n ↦ absurd (fails_is (rw n at e))
  | inl y ↦
      subst (Loaded ss) (is-injective (rw y at e))
        (record { compiled = l.compiled; named = l.named; distinct = l.distinct; default_ok = y })
]

load_document-Loaded :
    (file : Text) (pf : PolicyFile) (ss : List RuleSource) (st st' : Loading)
    → load_document file pf st ≡ is st'
    → Loaded ss st
    → Loaded (ss ++ pf.rules) st'
unfolding load_document
load_document-Loaded file pf ss st st' e l = elim (Result-cases (load_rules file pf.rules st)) [
  | inl (x, f) ↦ absurd (fails_is (rw (load_document, f) at e))
  | inr (mid, f) ↦
      load_default-Loaded file pf.default (ss ++ pf.rules) mid st' (rw (load_document, f) at e)
        (load_rules-Loaded file pf.rules ss st mid f l)
]

module _ (parse : Text → Option PolicyFile) where
  -- The rules of a file's document, as they stand in it.
  abbrev pub rules_in : Option PolicyFile → List RuleSource
  rules_in none = []
  rules_in (some pf) = pf.rules

  abbrev pub parsed : Option Text → Option PolicyFile
  parsed none = none
  parsed (some raw) = parse raw

  -- The rules of a directory, file by file.
  abbrev pub file_rules : List Entry → List RuleSource
  file_rules [] = []
  file_rules (e ∷ es) =
      if e.is_dir || not (is_yaml e.name)
      then file_rules es
      else rules_in (parsed e.raw) ++ file_rules es

  load_file-Loaded :
      (file : Text) (raw : Option Text) (ss : List RuleSource) (st st' : Loading)
      → load_file parse file raw st ≡ is st'
      → Loaded ss st
      → Loaded (ss ++ rules_in (parsed raw)) st'
  unfolding load_file
  load_file-Loaded file none ss st st' e l = absurd (fails_is e)
  load_file-Loaded file (some raw) ss st st' e l = elim (Option-cases (parse raw)) [
    | inl f ↦ absurd (fails_is (rw (load_file, f) at e))
    | inr (pf, f) ↦ rw f (load_document-Loaded file pf ss st st' (rw (load_file, f) at e) l)
  ]

  pub load_entries-Loaded :
      (es : List Entry) (ss : List RuleSource) (st st' : Loading)
      → load_entries parse es st ≡ is st'
      → Loaded ss st
      → Loaded (ss ++ file_rules es) st'
  unfolding load_entries
  load_entries-Loaded [] ss st st' e l = rw (append-nil ss) (subst (Loaded ss) (is-injective e) l)
  load_entries-Loaded (x ∷ es) ss st st' e l =
      elim (Bool-cases (x.is_dir || not (is_yaml x.name))) [
        | inl y ↦ rw y (load_entries-Loaded es ss st st' (rw (load_entries, y) at e) l)
        | inr n ↦ elim (Result-cases (load_file parse x.name x.raw st)) [
          | inl (err, f) ↦ absurd (fails_is (rw (load_entries, n, f) at e))
          | inr (mid, f) ↦
              rw (n, ← append_assoc ss (rules_in (parsed x.raw)) (file_rules es))
                (load_entries-Loaded es _ mid st' (rw (load_entries, n, f) at e)
                  (load_file-Loaded x.name x.raw ss st mid f l))
        ]
      ]
