-- ===== src/Policy/Rules/Refs.antt =====
-- The catalog names that a ruleset refers to.
use mirage_chaff.Base.{
  ◌≡◌, ◌≢◌, refl, List, [], ◌∷◌, ◌++◌, true, false, ◌||◌, All, All-map, Bool-cases, inl, inr, arith,
}
use mirage_chaff.Base.Text.{Text, text_eq, text_eq_iff}
use mirage_chaff.Policy.Rules.{Rule, Ruleset, one_of, action_stub, add_ref, rule_refs, catalog_refs}

pub one_of-append :
    (n : Text) (xs ys : List Text) → one_of n (xs ++ ys) ≡ (one_of n xs || one_of n ys)
unfolding one_of
one_of-append n [] ys = refl
one_of-append n (x ∷ xs) ys = ground (arith, one_of-append n xs ys)

add_ref-kept :
    (n m : Text) (out : List Text) → one_of n out ≡ true → one_of n (add_ref m out) ≡ true
unfolding add_ref
add_ref-kept n m out h = ground (arith, one_of-append n out (m ∷ []))

add_ref-added : (n : Text) (out : List Text) → n ≢ [] → one_of n (add_ref n out) ≡ true
unfolding add_ref one_of
add_ref-added n out h =
    ground (arith, one_of-append n out (n ∷ []), text_eq_iff n n, text_eq_iff n [])

rule_refs-kept :
    (rs : List Rule) (n : Text) (out : List Text)
    → one_of n out ≡ true
    → one_of n (rule_refs rs out) ≡ true
unfolding rule_refs
rule_refs-kept [] n out h = h
rule_refs-kept (r ∷ rs) n out h =
    rule_refs-kept rs n _ (ground (arith, add_ref-kept n r.catalog out h))

-- A stub rule's catalog name, unless it is empty, is among the names.
abbrev pub Refers : List Text → Rule → Type 0
Refers refs r = text_eq r.action action_stub ≡ true → r.catalog ≢ [] → one_of r.catalog refs ≡ true

rule_refs-Refers : (rs : List Rule) (out : List Text) → All (Refers (rule_refs rs out)) rs
unfolding rule_refs
rule_refs-Refers [] out = tt
rule_refs-Refers (r ∷ rs) out = (
  λ h k. rw h (rule_refs-kept rs r.catalog _ (add_ref-added r.catalog out k)),
  rule_refs-Refers rs _,
)

pub catalog_refs-Refers : (rs : Ruleset) → All (Refers (catalog_refs rs)) rs.rules
unfolding catalog_refs
catalog_refs-Refers rs =
    All-map rs.rules
      (λ r f h k.
        ground (arith, f h k, add_ref-kept r.catalog rs.default.catalog (rule_refs rs.rules [])))
      (rule_refs-Refers rs.rules [])

pub catalog_refs-default :
    (rs : Ruleset)
    → text_eq rs.default.action action_stub ≡ true
    → rs.default.catalog ≢ []
    → one_of rs.default.catalog (catalog_refs rs) ≡ true
unfolding catalog_refs
catalog_refs-default rs h k = rw h (add_ref-added rs.default.catalog (rule_refs rs.rules []) k)

-- No name occurs twice and none is empty.
abbrev pub NoRepeat : List Text → Type 0
NoRepeat [] = Unit {0}
NoRepeat (n ∷ ns) = (one_of n ns ≡ false) × (n ≢ []) × NoRepeat ns

NoRepeat-snoc :
    (ns : List Text) (n : Text)
    → NoRepeat ns
    → one_of n ns ≡ false
    → n ≢ []
    → NoRepeat (ns ++ (n ∷ []))
unfolding one_of
NoRepeat-snoc [] n h f k = (refl, k, tt)
NoRepeat-snoc (m ∷ ns) n h f k = (
  ground (arith, one_of-append m ns (n ∷ []), text_eq_iff m n, text_eq_iff n m),
  h.1,
  NoRepeat-snoc ns n h.2 (ground arith) k,
)

add_ref-NoRepeat : (n : Text) (out : List Text) → NoRepeat out → NoRepeat (add_ref n out)
unfolding add_ref
add_ref-NoRepeat n out h = elim (Bool-cases (text_eq n [])) [
  | inl e ↦ rw e h
  | inr k ↦ elim (Bool-cases (one_of n out)) [
    | inl y ↦ rw (k, y) h
    | inr f ↦ rw (k, f) (NoRepeat-snoc out n h f (ground (arith, text_eq_iff n [])))
  ]
]

rule_refs-NoRepeat : (rs : List Rule) (out : List Text) → NoRepeat out → NoRepeat (rule_refs rs out)
unfolding rule_refs
rule_refs-NoRepeat [] out h = h
rule_refs-NoRepeat (r ∷ rs) out h = elim (Bool-cases (text_eq r.action action_stub)) [
  | inl y ↦ rw y (rule_refs-NoRepeat rs _ (add_ref-NoRepeat r.catalog out h))
  | inr n ↦ rw n (rule_refs-NoRepeat rs out h)
]

catalog_refs-NoRepeat : (rs : Ruleset) → NoRepeat (catalog_refs rs)
unfolding catalog_refs
catalog_refs-NoRepeat rs = elim (Bool-cases (text_eq rs.default.action action_stub)) [
  | inl y ↦ rw y (add_ref-NoRepeat _ _ (rule_refs-NoRepeat rs.rules [] tt))
  | inr n ↦ rw n (rule_refs-NoRepeat rs.rules [] tt)
]

-- The catalog names of a ruleset hold the name of every stub rule and of a stub default, no name
-- twice and no empty one.
pub catalog_refs_complete :
    (rs : Ruleset)
    → All (Refers (catalog_refs rs)) rs.rules
      × (text_eq rs.default.action action_stub ≡ true
          → rs.default.catalog ≢ []
          → one_of rs.default.catalog (catalog_refs rs) ≡ true)
      × NoRepeat (catalog_refs rs)
catalog_refs_complete rs =
    (catalog_refs-Refers rs, catalog_refs-default rs, catalog_refs-NoRepeat rs)
