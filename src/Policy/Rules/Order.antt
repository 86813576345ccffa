-- ===== src/Policy/Rules/Order.antt =====
-- Which rule answers a request after the rules are sorted.
use mirage_chaff.Base.{
  ◌≡◌, refl, List, [], ◌∷◌, ◌++◌, Bool, true, false, Option, none, some, if◌then◌else◌, All,
  Bool-cases, Option-cases, inl, inr, arith, sym, subst, ap, All-map, All-append,
}
use mirage_chaff.Base.Int.{ℤ, ltz, pos, negsuc}
use mirage_chaff.Policy.Rules.{Rule, first_rule, insert_rule, sort_rules}

-- The priority of the second is not below the first one's.
abbrev pub NotAbove : Rule → Rule → Type 0
NotAbove r q = ltz q.priority r.priority ≡ false

ltz_trans : (a b c : ℤ) → ltz b a ≡ false → ltz c b ≡ false → ltz c a ≡ false
ltz_trans (pos a) (pos b) (pos c) h k = ground (arith, h, k)
ltz_trans (pos a) (pos b) (negsuc c) h k = absurd cc
ltz_trans (pos a) (negsuc b) c h k = absurd cc
ltz_trans (negsuc a) (pos b) (pos c) h k = refl
ltz_trans (negsuc a) (pos b) (negsuc c) h k = absurd cc
ltz_trans (negsuc a) (negsuc b) (pos c) h k = refl
ltz_trans (negsuc a) (negsuc b) (negsuc c) h k = ground (arith, h, k)

ltz-asym : (a b : ℤ) → ltz a b ≡ true → ltz b a ≡ false
ltz-asym (pos a) (pos b) h = ground (arith, h)
ltz-asym (pos a) (negsuc b) h = absurd cc
ltz-asym (negsuc a) (pos b) h = refl
ltz-asym (negsuc a) (negsuc b) h = ground (arith, h)

abbrev Sorted : List Rule → Type 0
Sorted [] = Unit {0}
Sorted (r ∷ rs) = All (NotAbove r) rs × Sorted rs

pub All-insert_rule :
    (P : Rule → Type 0) (r : Rule) (xs : List Rule) → P r → All P xs → All P (insert_rule r xs)
unfolding insert_rule
All-insert_rule P r [] p a = (p, tt)
All-insert_rule P r (x ∷ xs) p a = elim (Bool-cases (ltz x.priority r.priority)) [
  | inl e ↦ rw (e, insert_rule) (a.0, All-insert_rule P r xs p a.1)
  | inr e ↦ rw e (p, a)
]

NotAbove-trans :
    (r x : Rule) (xs : List Rule) → NotAbove r x → All (NotAbove x) xs → All (NotAbove r) xs
NotAbove-trans r x [] h a = tt
NotAbove-trans r x (y ∷ ys) h a =
    (ltz_trans r.priority x.priority y.priority h a.0, NotAbove-trans r x ys h a.1)

insert_rule-Sorted : (r : Rule) (xs : List Rule) → Sorted xs → Sorted (insert_rule r xs)
unfolding insert_rule
insert_rule-Sorted r [] h = (tt, tt)
insert_rule-Sorted r (x ∷ xs) h = elim (Bool-cases (ltz x.priority r.priority)) [
  | inl e ↦
      rw (e, insert_rule)
        (
          All-insert_rule (NotAbove x) r xs (ltz-asym x.priority r.priority e) h.0,
          insert_rule-Sorted r xs h.1,
        )
  | inr e ↦ rw e ((e, NotAbove-trans r x xs e h.0), h)
]

sort_rules-Sorted : (rs : List Rule) → Sorted (sort_rules rs)
unfolding sort_rules
sort_rules-Sorted [] = tt
sort_rules-Sorted (r ∷ rs) = insert_rule-Sorted r (sort_rules rs) (sort_rules-Sorted rs)

-- The better of a rule and of a later one.
abbrev better : Rule → Option Rule → Option Rule
better r none = some r
better r (some q) = if ltz q.priority r.priority then some q else some r

pub first_rule-All :
    (P : Rule → Type 0) (p : Rule → Bool) (xs : List Rule) (q : Rule)
    → first_rule p xs ≡ some q
    → All P xs
    → P q
unfolding first_rule
first_rule-All P p [] q e a = absurd cc
first_rule-All P p (x ∷ xs) q e a = elim (Bool-cases (p x)) [
  | inl y ↦ let same : x ≡ q = ground arith in subst P same a.0
  | inr n ↦ first_rule-All P p xs q (rw n at e) a.1
]

better-first :
    (p : Rule → Bool) (r : Rule) (xs : List Rule)
    → All (NotAbove r) xs
    → better r (first_rule p xs) ≡ some r
better-first p r xs a = elim (Option-cases (first_rule p xs)) [
  | inl e ↦ rw e
  | inr (q, e) ↦ rw (e, first_rule-All (NotAbove r) p xs q e a) refl
]

first_rule-insert_rule :
    (p : Rule → Bool) (r : Rule) (xs : List Rule)
    → Sorted xs
    → first_rule p (insert_rule r xs)
      ≡ (if p r then better r (first_rule p xs) else first_rule p xs)
unfolding first_rule insert_rule
first_rule-insert_rule p r [] h = refl
first_rule-insert_rule p r (x ∷ xs) h = elim (Bool-cases (ltz x.priority r.priority)) [
  | inl e ↦ elim (Bool-cases (p x)) [
    | inl y ↦ rw (e, first_rule, y, e) (ground arith)
    | inr n ↦ rw (e, first_rule, n, first_rule-insert_rule p r xs h.1) refl
  ]
  | inr e ↦ elim (Bool-cases (p r)) [
    | inl y ↦
        rw (e, first_rule, y) (sym (better-first p r (x ∷ xs) (e, NotAbove-trans r x xs e h.0)))
    | inr n ↦ rw (e, first_rule, n)
  ]
]

-- A choice among rules in file order: none accepts, or the chosen one accepts, every accepting rule
-- before it has a larger priority number, and none after it a smaller one.
pub data Chosen (p : Rule → Bool) (rs : List Rule) : Option Rule → Type 0 where
  nobody : All (λ q. p q ≡ false) rs → Chosen p rs none
  chosen :
      (before : List Rule) (r : Rule) (after : List Rule)
      → rs ≡ before ++ (r ∷ after)
      → p r ≡ true
      → All (λ q. p q ≡ true → ltz r.priority q.priority ≡ true) before
      → All (λ q. p q ≡ true → ltz q.priority r.priority ≡ false) after
      → Chosen p rs (some r)

-- A rule that the chosen one does not beat is not beaten by any other.
none_above :
    (p : Rule → Bool) (r : Rule) (before : List Rule) (q : Rule) (after rs : List Rule)
    → rs ≡ before ++ (q ∷ after)
    → p q ≡ true
    → NotAbove r q
    → All (λ x. p x ≡ true → ltz q.priority x.priority ≡ true) before
    → All (λ x. p x ≡ true → NotAbove q x) after
    → All (λ x. p x ≡ true → NotAbove r x) rs
none_above p r before q after rs e t ge below above =
    let P = λ (x : Rule). p x ≡ true → NotAbove r x in
    let past = λ (x : Rule) (k : NotAbove q x). ltz_trans r.priority q.priority x.priority ge k in
    subst (All P) (sym e) (
      All-append P before (q ∷ after)
        (All-map before (λ x k h. past x (ltz-asym q.priority x.priority (k h))) below)
        ((λ h. ge), All-map after (λ x k h. past x (k h)) above))

Chosen-cons :
    (p : Rule → Bool) (r : Rule) (rs : List Rule) (o : Option Rule)
    → Chosen p rs o
    → Chosen p (r ∷ rs) (if p r then better r o else o)
Chosen-cons p r rs _ (nobody a) = elim (Bool-cases (p r)) [
  | inl y ↦ rw y (chosen [] r rs refl y tt (All-map rs (λ q n t. absurd (ground (arith, n, t))) a))
  | inr n ↦ rw n (nobody (n, a))
]
Chosen-cons p r rs _ (chosen before q after e t below above) = elim (Bool-cases (p r)) [
  | inr n ↦ rw n (
      chosen (r ∷ before) q after (ap (λ x. r ∷ x) e) t
        ((λ h. absurd (ground (arith, n, h))), below) above)
  | inl y ↦ elim (Bool-cases (ltz q.priority r.priority)) [
    | inl lt ↦
        rw (y, lt) (chosen (r ∷ before) q after (ap (λ x. r ∷ x) e) t ((λ h. lt), below) above)
    | inr ge ↦
        rw (y, ge) (chosen [] r rs refl y tt (none_above p r before q after rs e t ge below above))
  ]
]

pub first_rule-Chosen :
    (p : Rule → Bool) (rs : List Rule) → Chosen p rs (first_rule p (sort_rules rs))
unfolding sort_rules first_rule
first_rule-Chosen p [] = nobody tt
first_rule-Chosen p (r ∷ rs) =
    rw (first_rule-insert_rule p r (sort_rules rs) (sort_rules-Sorted rs))
      (Chosen-cons p r rs (first_rule p (sort_rules rs)) (first_rule-Chosen p rs))
