-- ===== src/Policy/Load/Validate.antt =====
-- What the editor's check of a document says about loading it.
use mirage_chaff.Base.{
  ◌≡◌, ◌≢◌, ◌⊎◌, inl, inr, refl, subst, List, [], ◌∷◌, Option, none, some, Bool-cases, Option-cases,
  arith,
}
use mirage_chaff.Base.Text.{Text}
use mirage_chaff.Policy.Rules.{
  RuleSource, Result, fails, is, compile, Result-cases, one_of, valid_action,
}
use mirage_chaff.Policy.Load.{
  PolicyFile, Default, Loading, LoadError, duplicate_name, load_rules, load_default, load_document,
  load_file, check_rules, check_default, check_document, validate_bytes,
}

-- Loading went well, or stopped at a name that was there before.
pub data Accepted (file : Text) : Result LoadError Loading → Type 0 where
  loaded : (st : Loading) → Accepted file (is st)
  repeated : (name : Text) → Accepted file (fails (duplicate_name file name))

-- Loading stopped.
pub data Refused : Result LoadError Loading → Type 0 where
  refused : (e : LoadError) → Refused (fails e)

rules-Accepted :
    (file : Text) (rs : List RuleSource) (st : Loading)
    → check_rules rs ≡ none
    → Accepted file (load_rules file rs st)
unfolding check_rules load_rules
rules-Accepted file [] st h = loaded st
rules-Accepted file (r ∷ rs) st h = elim (Result-cases (compile r)) [
  | inl (e, f) ↦ absurd (ground (arith, rw (check_rules, f) at h))
  | inr (c, f) ↦ elim (Bool-cases (one_of c.name st.names)) [
    | inl y ↦ rw (load_rules, f, y) (repeated c.name)
    | inr n ↦ rw (load_rules, f, n) (rules-Accepted file rs _ (rw (check_rules, f) at h))
  ]
]

rules-Refused :
    (file : Text) (rs : List RuleSource) (st : Loading)
    → check_rules rs ≢ none
    → Refused (load_rules file rs st)
unfolding check_rules load_rules
rules-Refused file [] st h = absurd (h refl)
rules-Refused file (r ∷ rs) st h = elim (Result-cases (compile r)) [
  | inl (e, f) ↦ rw (load_rules, f) (refused _)
  | inr (c, f) ↦ elim (Bool-cases (one_of c.name st.names)) [
    | inl y ↦ rw (load_rules, f, y) (refused _)
    | inr n ↦ rw (load_rules, f, n) (rules-Refused file rs _ (rw (check_rules, f) at h))
  ]
]

default-cases :
    (file : Text) (d : Option Default) (st : Loading)
    → ((check_default d ≡ none) × Accepted file (load_default file d st))
      ⊎ ((check_default d ≢ none) × Refused (load_default file d st))
unfolding check_default load_default
default-cases file none st = inl (refl, loaded st)
default-cases file (some d) st = elim (Bool-cases (valid_action d.action)) [
  | inl y ↦ rw y (inl (refl, loaded _))
  | inr n ↦ rw n (inr ((λ h. cc), refused _))
]

not-Refused : (st : Loading) → Refused (is st) → ⊥
not-Refused st h = elim h [ ]

document-cases :
    (file : Text) (pf : PolicyFile) (st : Loading)
    → ((check_document pf ≡ none) × Accepted file (load_document file pf st))
      ⊎ ((check_document pf ≢ none) × Refused (load_document file pf st))
unfolding check_document load_document
document-cases file pf st = elim (Option-cases (check_rules pf.rules)) [
  | inr (e, f) ↦
      let bad = rules-Refused file pf.rules st (λ h. ground (arith, rw f at h)) in
      elim (Result-cases (load_rules file pf.rules st)) [
        | inl (x, g) ↦ rw (check_document, load_document, f, g) (inr ((λ h. cc), refused x))
        | inr (mid, g) ↦ absurd (not-Refused mid (subst Refused g bad))
      ]
  | inl f ↦
      let good = rules-Accepted file pf.rules st f in
      elim (Result-cases (load_rules file pf.rules st)) [
        | inl (x, g) ↦ elim (Option-cases (check_default pf.default)) [
          | inl k ↦ rw (check_document, load_document, f, g) (inl (k, subst (Accepted file) g good))
          | inr (y, k) ↦
              rw (check_document, load_document, f, g)
                (inr ((λ h. ground (arith, k, h)), refused x))
        ]
        | inr (mid, g) ↦
            rw (check_document, load_document, f, g) (default-cases file pf.default mid)
      ]
]

module _ (parse : Text → Option PolicyFile) where
  -- A document without an error in `ValidateBytes` is loaded, unless one of its rules has a name that an
  -- earlier rule of the directory or of the document has; a document with an error is never loaded.
  pub validate_load :
      (file raw : Text) (st : Loading)
      → ((validate_bytes parse raw ≡ none) × Accepted file (load_file parse file (some raw) st))
        ⊎ ((validate_bytes parse raw ≢ none) × Refused (load_file parse file (some raw) st))
  unfolding validate_bytes load_file
  validate_load file raw st = elim (Option-cases (parse raw)) [
    | inl f ↦ rw (validate_bytes, load_file, f) (inr ((λ h. cc), refused _))
    | inr (pf, f) ↦ rw (validate_bytes, load_file, f) (document-cases file pf st)
  ]
