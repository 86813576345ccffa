-- ===== src/Managed/Conflicts/Agree.antt =====
-- What holds of a group of rows that is no conflict.
use mirage_chaff.Base.{
  ◌<◌, ◌≡◌, refl, ap, subst, true, false, ◌&&◌, ◌||◌, List, [], ◌∷◌, map, none, length, ltb,
  Bool-cases, inl, inr, arith, ◌∙◌,
}
use mirage_chaff.Base.Text.{Text, text_eq_iff}
use mirage_chaff.Base.Sort.{sort_by, insert_by, text_lt}
use mirage_chaff.Base.Members.{In, In-single, In-map}
use mirage_chaff.Managed.Rows.{CatalogRow, string_in_slice}
use mirage_chaff.Managed.Overrides.{unique_strings, unique_from}
use mirage_chaff.Managed.Overrides.Captured.{in-unique_strings}
use mirage_chaff.Managed.Groups.{
  conflict_participant, is_allow, has_reason, participants, action_reasons,
}
use mirage_chaff.Managed.Conflicts.{
  differ, category_of, review_of, reasons_of, sorted_keys, conflict_in, is_nil, any_row, is_rewrite,
}

pub string_in_slice-In : (a : Text) (ts : List Text) → In a ts → string_in_slice a ts ≡ true
unfolding string_in_slice
string_in_slice-In a [] h = absurd h.1
string_in_slice-In a (t ∷ ts) (inl e) = rw ((text_eq_iff t a).1 e)
string_in_slice-In a (t ∷ ts) (inr h) = ground (arith, string_in_slice-In a ts h)

slice-single :
    (a b : Text) (ts : List Text)
    → length ts < 2
    → string_in_slice a ts ≡ true
    → string_in_slice b ts ≡ true
    → a ≡ b
unfolding string_in_slice
slice-single a b [] s h k = absurd cc
slice-single a b (t ∷ []) s h k = ground (arith, text_eq_iff t a, text_eq_iff t b)
slice-single a b (t ∷ u ∷ ts) s h k = absurd (omega arith)

differ-eq : (a b : Text) (ts : List Text) → differ ts ≡ false → In a ts → In b ts → a ≡ b
unfolding differ
differ-eq a b ts h p q =
    slice-single a b (unique_strings ts) (ground arith)
      (in-unique_strings a ts ∙ string_in_slice-In a ts p)
      (in-unique_strings b ts ∙ string_in_slice-In b ts q)

pub In-participants :
    (r : CatalogRow) (rows : List CatalogRow)
    → conflict_participant r ≡ true
    → In r rows
    → In r (participants rows)
unfolding participants
In-participants r [] p h = absurd h.1
In-participants r (x ∷ rows) p (inl e) = rw (e, p) (ground arith)
In-participants r (x ∷ rows) p (inr h) =
    elim (Bool-cases (has_reason x || conflict_participant x)) [
      | inl q ↦ rw q (inr (In-participants r rows p h))
      | inr q ↦ rw q (In-participants r rows p h)
    ]

action_reasons-nil :
    (r : CatalogRow) (rows : List CatalogRow)
    → action_reasons rows ≡ []
    → In r rows
    → has_reason r ≡ false
unfolding action_reasons
action_reasons-nil r [] n h = absurd h.1
action_reasons-nil r (x ∷ rows) n (inl e) = elim (Bool-cases (has_reason x)) [
  | inl q ↦ absurd (cc (rw q at n))
  | inr q ↦ subst (λ y. has_reason y ≡ false) e q
]
action_reasons-nil r (x ∷ rows) n (inr h) = elim (Bool-cases (has_reason x)) [
  | inl q ↦ absurd (cc (rw q at n))
  | inr q ↦ action_reasons-nil r rows (rw q at n) h
]

insert_by-ne-nil : (t : Text) (ts : List Text) → insert_by text_lt t ts ≡ [] → ⊥
unfolding insert_by
insert_by-ne-nil t [] h = cc
insert_by-ne-nil t (u ∷ ts) h = elim (Bool-cases (text_lt t u)) [
  | inl e ↦ cc (rw e at h)
  | inr e ↦ cc (rw e at h)
]

sorted_keys-nil : (ts : List Text) → sorted_keys ts ≡ [] → ts ≡ []
unfolding sorted_keys unique_strings unique_from sort_by string_in_slice
sorted_keys-nil [] h = refl
sorted_keys-nil (t ∷ ts) h =
    absurd (insert_by-ne-nil t (sort_by text_lt (unique_from (t ∷ []) ts)) h)

is_nil-eq {ℓ} : {A : Type ℓ} (xs : List A) → is_nil xs ≡ true → xs ≡ []
is_nil-eq [] h = refl
is_nil-eq (x ∷ xs) h = absurd cc

reasons_of-nil :
    (parts : List CatalogRow) (actions : List Text)
    → reasons_of parts actions ≡ []
    → (differ (map category_of parts) ≡ false)
      × (differ (map review_of parts) ≡ false)
      × (actions ≡ [])
unfolding reasons_of
reasons_of-nil parts actions h = elim (Bool-cases (differ (map category_of parts))) [
  | inl q ↦ absurd (cc (rw q at h))
  | inr q ↦
      let h1 = rw q at h in
      elim (Bool-cases (differ (map review_of parts))) [
        | inl p ↦ absurd (cc (rw p at h1))
        | inr p ↦
            let h2 = rw p at h1 in
            elim (Bool-cases (any_row is_allow parts && any_row is_rewrite parts)) [
              | inl o ↦ absurd (cc (rw o at h2))
              | inr o ↦ (q, p, sorted_keys-nil actions (rw o at h2))
            ]
      ]
]

-- Two rows agree, and the first has no reason to be a conflict by itself.
abbrev pub Agree : CatalogRow → CatalogRow → Type 0
Agree r r' =
    (category_of r ≡ category_of r') × (review_of r ≡ review_of r') × (has_reason r ≡ false)

pub conflict_in-Agree :
    (hash : Text → Text) (k : Text) (rows : List CatalogRow) (r r' : CatalogRow)
    → conflict_in hash k rows ≡ none
    → In r rows
    → In r' rows
    → conflict_participant r ≡ true
    → conflict_participant r' ≡ true
    → Agree r r'
unfolding conflict_in
conflict_in-Agree hash k rows r r' h i i' p p' =
    let parts = participants rows in
    let actions = action_reasons rows in
    let mine = In-participants r rows p i in
    let other = In-participants r' rows p' i' in
    elim (Bool-cases (ltb (length parts) 2 && is_nil actions)) [
      | inl few ↦
          let same : r ≡ r' = In-single r r' parts (ground arith) mine other in
          (
            ap category_of same,
            ap review_of same,
            action_reasons-nil r rows (is_nil-eq actions (ground arith)) i,
          )
      | inr many ↦
          let h1 = rw many at h in
          elim (Bool-cases (is_nil (reasons_of parts actions))) [
            | inr some_reason ↦ absurd (cc (rw some_reason at h1))
            | inl none_given ↦
                let agreed =
                  reasons_of-nil parts actions (is_nil-eq (reasons_of parts actions) none_given) in
                (
                  differ-eq (category_of r) (category_of r') (map category_of parts) agreed.0
                      (In-map category_of r parts mine) (In-map category_of r' parts other),
                  differ-eq (review_of r) (review_of r') (map review_of parts) agreed.1
                      (In-map review_of r parts mine) (In-map review_of r' parts other),
                  action_reasons-nil r rows agreed.2 i,
                )
          ]
    ]
