-- ===== src/Server/Reload/Refs.antt =====
-- internal/server/server.go: what `validateRefs` gives for the decisions of a ruleset.
use mirage_chaff.Base.{
  ◌≡◌, sym, subst, List, [], ◌∷◌, true, false, Option, none, Bool-cases, inl, inr, ◌⊎◌,
}
use mirage_chaff.Base.Text.{Text, text_eq, text_eq_iff}
use mirage_chaff.Policy.Rules.{
  Ruleset, Decision, is, one_of, action_stub, catalog_refs, match_request,
}
use mirage_chaff.Policy.Load.{PolicyFile, load}
use mirage_chaff.Policy.Load.Decide.{decision-Safe}
use mirage_chaff.Server.Process.{Reading, missing_ref, validate_refs}

missing_ref-none :
    (catalog ns : List Text) (n : Text)
    → missing_ref catalog ns ≡ none
    → one_of n ns ≡ true
    → one_of n catalog ≡ true
unfolding missing_ref one_of
missing_ref-none catalog [] n h k = absurd (cc)
missing_ref-none catalog (m ∷ ns) n h k = elim (Bool-cases (one_of m catalog)) [
  | inr f ↦ absurd (cc (rw (missing_ref, f) at h))
  | inl f ↦ elim (Bool-cases (text_eq n m)) [
    | inl q ↦ subst (λ x. one_of x catalog ≡ true) (sym ((text_eq_iff n m).0 q)) f
    | inr q ↦ missing_ref-none catalog ns n (rw (missing_ref, f) at h) (rw (one_of, q) at k)
  ]
]

-- A stub decision of the rules names an entry of the catalog, or is that of the default with no name.
abbrev pub Known : List Text → Decision → Type 0
Known catalog d =
    text_eq d.action action_stub ≡ true
    → ((d.matched ≡ false) × (d.catalog ≡ [])) ⊎ (one_of d.catalog catalog ≡ true)

module _ (parse : Text → Option PolicyFile) where
  pub validated-Known :
      (r : Reading) (catalog : List Text) (rs : Ruleset) (domain path method : Text)
      → load parse r.policy ≡ is rs
      → validate_refs catalog rs ≡ none
      → Known catalog (match_request rs domain path method)
  unfolding validate_refs
  validated-Known r catalog rs domain path method l v h =
      elim ((decision-Safe parse r.policy rs domain path method l).stub_known h) [
        | inl d ↦ inl d
        | inr k ↦ inr (missing_ref-none catalog (catalog_refs rs) _ v k)
      ]
