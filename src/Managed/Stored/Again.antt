-- ===== src/Managed/Stored/Again.antt =====
-- internal/aghmanaged/manager.go: opening what was stored.
use mirage_chaff.Base.{
  ◌≡◌, refl, ◌∙◌, subst, ap, List, [], ◌∷◌, Option, none, some, if◌then◌else◌, Bool, Bool-cases,
  inl, inr, arith,
}
use mirage_chaff.Base.Text.{Text, text_eq, text_eq_iff}
use mirage_chaff.Base.Dict.{Dict, lookup, insert, text_key, lookup-insert}
use mirage_chaff.Base.Keys.{HasUniqueKeys}
use mirage_chaff.Base.Sort.{insert_by, sort_by}
use mirage_chaff.Managed.Stored.{values_of, index_into}

module _ {ℓ} {A : Type ℓ} (id : A → Text) where
  -- The first with an id.
  abbrev find : Text → List A → Option A
  find k [] = none
  find k (x ∷ xs) = if text_eq (id x) k then some x else find k xs

  abbrev IsDistinct : List A → Type ℓ
  IsDistinct [] = Unit {ℓ}
  IsDistinct (x ∷ xs) = (find (id x) xs ≡ none) × IsDistinct xs

  -- Every value stands under its id.
  abbrev pub IsKeyed : Dict Text A → Type ℓ
  IsKeyed [] = Unit {ℓ}
  IsKeyed ((k, x) ∷ m) = (k ≡ id x) × IsKeyed m

  abbrev or_find : Option A → Option A → Option A
  or_find none o = o
  or_find (some x) o = some x

  lookup-index_into :
      (k : Text) (xs : List A) (m : Dict Text A)
      → IsDistinct xs
      → lookup k (index_into id xs m) ≡ or_find (find k xs) (lookup k m)
  unfolding index_into
  lookup-index_into k [] m d = refl
  lookup-index_into k (x ∷ xs) m d =
      lookup-index_into k xs (insert (id x) x m) d.1 ∙ elim (Bool-cases (text_eq (id x) k)) [
        | inl y ↦
            rw
              (
                lookup-insert (id x) k x m,
                y,
                subst (λ j. find j xs ≡ none) ((text_eq_iff (id x) k).0 y) d.0,
              )
              refl
        | inr n ↦ rw (lookup-insert (id x) k x m, n) refl
      ]

  module _ (less : A → A → Bool) where
    find-insert_by :
        (k : Text) (a : A) (xs : List A)
        → find (id a) xs ≡ none
        → find k (insert_by less a xs) ≡ (if text_eq (id a) k then some a else find k xs)
    unfolding insert_by
    find-insert_by k a [] h = refl
    find-insert_by k a (x ∷ xs) h = ground (
      arith,
      find-insert_by k a xs,
      text_eq_iff (id a) k,
      text_eq_iff (id x) k,
      text_eq_iff (id x) (id a),
    )

    insert_by-IsDistinct :
        (a : A) (xs : List A)
        → find (id a) xs ≡ none
        → IsDistinct xs
        → IsDistinct (insert_by less a xs)
    unfolding insert_by
    insert_by-IsDistinct a [] h d = (refl, tt)
    insert_by-IsDistinct a (x ∷ xs) h d = elim (Bool-cases (less a x)) [
      | inl y ↦ rw y (h, d)
      | inr n ↦ elim (Bool-cases (text_eq (id x) (id a))) [
        | inl same ↦ absurd (cc (rw same at h))
        | inr other ↦ rw n (
          rw (find-insert_by (id x) a xs (rw other at h))
              (ground (arith, d.0, text_eq_iff (id a) (id x), text_eq_iff (id x) (id a))),
          insert_by-IsDistinct a xs (rw other at h) d.1,
        )
      ]
    ]

    find-sort_by : (k : Text) (xs : List A) → IsDistinct xs → find k (sort_by less xs) ≡ find k xs
    unfolding sort_by
    find-sort_by k [] d = refl
    find-sort_by k (x ∷ xs) d =
        find-insert_by k x (sort_by less xs) (find-sort_by (id x) xs d.1 ∙ d.0)
        ∙ ap (λ o. if text_eq (id x) k then some x else o) (find-sort_by k xs d.1)

    sort_by-IsDistinct : (xs : List A) → IsDistinct xs → IsDistinct (sort_by less xs)
    unfolding sort_by
    sort_by-IsDistinct [] d = tt
    sort_by-IsDistinct (x ∷ xs) d =
        insert_by-IsDistinct x (sort_by less xs) (find-sort_by (id x) xs d.1 ∙ d.0)
          (sort_by-IsDistinct xs d.1)

    find-values_of : (k : Text) (m : Dict Text A) → IsKeyed m → find k (values_of m) ≡ lookup k m
    unfolding values_of lookup
    find-values_of k [] h = refl
    find-values_of k ((j, x) ∷ m) (e, h) =
        rw e (ap (λ o. if text_eq (id x) k then some x else o) (find-values_of k m h))

    values_of-IsDistinct :
        (m : Dict Text A) → IsKeyed m → HasUniqueKeys m → IsDistinct (values_of m)
    unfolding values_of
    values_of-IsDistinct [] h u = tt
    values_of-IsDistinct ((j, x) ∷ m) (e, h) u = (
      find-values_of (id x) m h ∙ subst (λ j. lookup j m ≡ none) e u.0,
      values_of-IsDistinct m h u.1,
    )

    -- Written out by id and read again, a map gives every key its value.
    pub lookup-again :
        (k : Text) (m : Dict Text A)
        → IsKeyed m
        → HasUniqueKeys m
        → lookup k (index_into id (sort_by less (values_of m)) []) ≡ lookup k m
    unfolding lookup
    lookup-again k m h u =
        let d = values_of-IsDistinct m h u in
        lookup-index_into k (sort_by less (values_of m)) [] (sort_by-IsDistinct _ d)
        ∙ ap (λ o. or_find o none) (find-sort_by k (values_of m) d ∙ find-values_of k m h)
        ∙ or_find-none (lookup k m)
      where
        or_find-none : (o : Option A) → or_find o none ≡ o
        or_find-none none = refl
        or_find-none (some x) = refl
