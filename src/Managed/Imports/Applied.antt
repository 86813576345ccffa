-- ===== src/Managed/Imports/Applied.antt =====
-- The catalog after an import, entry by entry.
use mirage_chaff.Base.{
  ℕ, ◌≡◌, refl, sym, ap, subst, Bool, true, false, ◌&&◌, ◌||◌, List, [], ◌∷◌, Option, none, some,
  if◌then◌else◌, Bool-cases, inl, inr, arith, ◌∙◌,
}
use mirage_chaff.Base.Text.{Text, text_eq, text_eq_iff}
use mirage_chaff.Base.Dict.{Dict, lookup, insert, delete, lookup-insert, lookup-delete, text_key}
use mirage_chaff.Base.Keys.{HasUniqueKeys}
use mirage_chaff.Managed.Types.{Entry, Manager}
use mirage_chaff.Managed.Overrides.{newer}
use mirage_chaff.Managed.Imports.{drop_entries, put_entries, apply_entries}

-- An entry, unless it belongs to the source.
abbrev pub unless_owned : Text → Option Entry → Option Entry
unless_owned id none = none
unless_owned id (some e) = if text_eq e.source_name id then none else some e

-- The key stands in the list with an entry of the source.
abbrev pub owned_in : Text → Text → Dict Text Entry → Bool
owned_in id k [] = false
owned_in id k ((eid, e) ∷ es) = (text_eq eid k && text_eq e.source_name id) || owned_in id k es

pub owned_in-absent :
    (id k : Text) (es : Dict Text Entry) → lookup k es ≡ none → owned_in id k es ≡ false
unfolding lookup
owned_in-absent id k [] h = refl
owned_in-absent id k ((eid, e) ∷ es) h = elim (Bool-cases (text_eq eid k)) [
  | inl q ↦ absurd (cc (rw q at h))
  | inr q ↦ rw q (owned_in-absent id k es (rw q at h))
]

pub unless-owned_in :
    (id k : Text) (es : Dict Text Entry)
    → HasUniqueKeys es
    → (if owned_in id k es then none else lookup k es) ≡ unless_owned id (lookup k es)
unfolding lookup
unless-owned_in id k [] u = refl
unless-owned_in id k ((eid, e) ∷ es) u = elim (Bool-cases (text_eq eid k)) [
  | inl q ↦
      let fresh = subst (λ x. lookup x es ≡ none) ((text_eq_iff eid k).0 q) u.0 in
      rw (q, owned_in-absent id k es fresh) (ground arith)
  | inr q ↦ rw q (unless-owned_in id k es u.1)
]

abbrev pub is_owned : Text → Option Entry → Bool
is_owned id none = false
is_owned id (some e) = text_eq e.source_name id

pub owned_in-lookup :
    (id k : Text) (es : Dict Text Entry)
    → HasUniqueKeys es
    → owned_in id k es ≡ is_owned id (lookup k es)
unfolding lookup
owned_in-lookup id k [] u = refl
owned_in-lookup id k ((eid, e) ∷ es) u = elim (Bool-cases (text_eq eid k)) [
  | inl q ↦
      let fresh = subst (λ x. lookup x es ≡ none) ((text_eq_iff eid k).0 q) u.0 in
      rw (q, owned_in-absent id k es fresh) (ground arith)
  | inr q ↦ rw q (owned_in-lookup id k es u.1)
]

drop_entries-lookup :
    (id k : Text) (es entries : Dict Text Entry) (seen : Dict Text ℕ)
    → lookup k (drop_entries id es (entries, seen)).0
      ≡ (if owned_in id k es then none else lookup k entries)
unfolding drop_entries
drop_entries-lookup id k [] entries seen = refl
drop_entries-lookup id k ((eid, e) ∷ es) entries seen =
    elim (Bool-cases (text_eq e.source_name id)) [
      | inl q ↦
          rw
            (
              q,
              drop_entries,
              drop_entries-lookup id k es (delete eid entries) (delete eid seen),
              lookup-delete eid k entries,
            )
            (ground arith)
      | inr q ↦ rw (q, drop_entries, drop_entries-lookup id k es entries seen) (ground arith)
    ]

newer-if :
    (l x : Option Entry) (t : Bool) (r : Entry)
    → newer l (if t then some r else x) ≡ newer (newer l (if t then some r else none)) x
unfolding newer
newer-if none x true r = refl
newer-if none x false r = refl
newer-if (some v) x t r = refl

put_entries-lookup :
    (id k : Text) (es : List Entry) (d : Dict Text Entry)
    → lookup k (put_entries id es d) ≡ newer (lookup k (put_entries id es [])) (lookup k d)
unfolding put_entries newer lookup insert
put_entries-lookup id k [] d = refl
put_entries-lookup id k (e ∷ es) d =
    let r = record e { source_name = id } in
    let l = lookup k (put_entries id es []) in
    put_entries-lookup id k es (insert e.id r d)
    ∙ ap (newer l) (lookup-insert e.id k r d)
    ∙ newer-if l (lookup k d) (text_eq e.id k) r
    ∙ sym (ap (λ y. newer y (lookup k d)) (put_entries-lookup id k es ((e.id, r) ∷ [])))

pub apply_entries-lookup :
    (id k : Text) (es : List Entry) (m : Manager)
    → HasUniqueKeys m.entries
    → lookup k (apply_entries id es m).entries
      ≡ newer (lookup k (put_entries id es [])) (unless_owned id (lookup k m.entries))
unfolding apply_entries
apply_entries-lookup id k es m u =
    put_entries-lookup id k es (drop_entries id m.entries (m.entries, m.feed_seen)).0
    ∙ ap (newer (lookup k (put_entries id es []))) (
        drop_entries-lookup id k m.entries m.entries m.feed_seen ∙ unless-owned_in id k m.entries u)
