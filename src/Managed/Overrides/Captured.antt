-- ===== src/Managed/Overrides/Captured.antt =====
-- What a patch remembers of the overrides that it changes.
use mirage_chaff.Base.{
  ◌≡◌, refl, Bool, ◌||◌, List, [], ◌∷◌, none, some, if◌then◌else◌, Bool-cases, inl, inr, arith,
}
use mirage_chaff.Base.Text.{Text, text_eq_iff}
use mirage_chaff.Base.Dict.{Dict, lookup, insert, lookup-insert, text_key}
use mirage_chaff.Managed.Types.{CatalogOverride}
use mirage_chaff.Managed.Rows.{string_in_slice, override_of}
use mirage_chaff.Managed.Overrides.{
  unique_from, unique_strings, capture_loop, capture_overrides, is_present,
}

pub in-unique_from :
    (k : Text) (seen ids : List Text)
    → (string_in_slice k seen || string_in_slice k (unique_from seen ids))
      ≡ (string_in_slice k seen || string_in_slice k ids)
unfolding unique_from string_in_slice
in-unique_from k seen [] = refl
in-unique_from k seen (id ∷ ids) = elim (Bool-cases (string_in_slice id seen)) [
  | inl old ↦ rw (old, unique_from) (ground (arith, in-unique_from k seen ids, text_eq_iff id k))
  | inr new ↦ rw (new, unique_from) (ground (arith, in-unique_from k (id ∷ seen) ids))
]

pub in-unique_strings :
    (k : Text) (ids : List Text) → string_in_slice k (unique_strings ids) ≡ string_in_slice k ids
unfolding unique_strings string_in_slice
in-unique_strings k ids = in-unique_from k [] ids

module _ (overrides : Dict Text CatalogOverride) (k : Text) where
  capture_loop-before :
      (ids : List Text) (b : Dict Text CatalogOverride) (e : Dict Text Bool)
      → lookup k (capture_loop overrides ids (b, e)).0
        ≡ (if string_in_slice k ids then some (override_of k overrides) else lookup k b)
  unfolding capture_loop string_in_slice
  capture_loop-before [] b e = refl
  capture_loop-before (id ∷ ids) b e = ground (
    arith,
    capture_loop-before ids (insert id (override_of id overrides) b)
        (insert id (is_present (lookup id overrides)) e),
    lookup-insert id k (override_of id overrides) b,
    text_eq_iff id k,
  )

  capture_loop-exists :
      (ids : List Text) (b : Dict Text CatalogOverride) (e : Dict Text Bool)
      → lookup k (capture_loop overrides ids (b, e)).1
        ≡ (if string_in_slice k ids then some (is_present (lookup k overrides)) else lookup k e)
  unfolding capture_loop string_in_slice
  capture_loop-exists [] b e = refl
  capture_loop-exists (id ∷ ids) b e = ground (
    arith,
    capture_loop-exists ids (insert id (override_of id overrides) b)
        (insert id (is_present (lookup id overrides)) e),
    lookup-insert id k (is_present (lookup id overrides)) e,
    text_eq_iff id k,
  )

  pub capture_overrides-before :
      (ids : List Text)
      → lookup k (capture_overrides overrides ids).0
        ≡ (if string_in_slice k ids then some (override_of k overrides) else none)
  unfolding capture_overrides lookup
  capture_overrides-before ids =
      rw (capture_loop-before (unique_strings ids) [] [], in-unique_strings k ids)

  pub capture_overrides-exists :
      (ids : List Text)
      → lookup k (capture_overrides overrides ids).1
        ≡ (if string_in_slice k ids then some (is_present (lookup k overrides)) else none)
  unfolding capture_overrides lookup
  capture_overrides-exists ids =
      rw (capture_loop-exists (unique_strings ids) [] [], in-unique_strings k ids)
