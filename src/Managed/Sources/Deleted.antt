-- ===== src/Managed/Sources/Deleted.antt =====
-- The catalog after a source is deleted.
use mirage_chaff.Base.{
  ◌≡◌, refl, ap, [], ◌∷◌, none, if◌then◌else◌, Bool-cases, inl, inr, arith, ◌∙◌,
}
use mirage_chaff.Base.Text.{Text, text_eq}
use mirage_chaff.Base.Dict.{Dict, lookup, delete, lookup-delete, beq_refl, text_key}
use mirage_chaff.Base.Keys.{HasUniqueKeys}
use mirage_chaff.Managed.Types.{Entry, Manager}
use mirage_chaff.Managed.Imports.Applied.{
  unless_owned, owned_in, unless-owned_in, is_owned, owned_in-lookup,
}
use mirage_chaff.Managed.Sources.{purge, delete_source}

abbrev purged : Text → Manager → Manager
purged eid m = record m {
  entries = delete eid m.entries;
  overrides = delete eid m.overrides;
  feed_seen = delete eid m.feed_seen;
}

abbrev pub Purged : Text → Dict Text Entry → Manager → Manager → Type 0
Purged id es m m' =
    ((k : Text)
      → (lookup k m'.entries ≡ (if owned_in id k es then none else lookup k m.entries))
        × (lookup k m'.overrides ≡ (if owned_in id k es then none else lookup k m.overrides))
        × (lookup k m'.feed_seen ≡ (if owned_in id k es then none else lookup k m.feed_seen)))
    × (m'.sources ≡ m.sources)
    × (m'.pending ≡ m.pending)

purge-Purged : (id : Text) (es : Dict Text Entry) (m : Manager) → Purged id es m (purge id es m)
unfolding purge
purge-Purged id [] m = (λ k. (refl, refl, refl), refl, refl)
purge-Purged id ((eid, e) ∷ es) m = elim (Bool-cases (text_eq e.source_name id)) [
  | inl q ↦
      let rest = purge-Purged id es (purged eid m) in
      rw (q, purge)
        (
          λ k. (
            (rest.0 k).0 ∙ rw (lookup-delete eid k m.entries) (ground arith),
            (rest.0 k).1 ∙ rw (lookup-delete eid k m.overrides) (ground arith),
            (rest.0 k).2 ∙ rw (lookup-delete eid k m.feed_seen) (ground arith),
          ),
          rest.1,
          rest.2,
        )
  | inr q ↦
      let rest = purge-Purged id es m in
      rw (q, purge)
        (
          λ k. (
            (rest.0 k).0 ∙ ground arith,
            (rest.0 k).1 ∙ ground arith,
            (rest.0 k).2 ∙ ground arith,
          ),
          rest.1,
          rest.2,
        )
]

-- After DeleteSource neither the source nor a waiting list of it is left. The entries of the source
-- are gone together with their overrides and feed times, and everything else is as before.
pub delete_source-lookup :
    (id : Text) (m : Manager)
    → HasUniqueKeys m.entries
    → (lookup id (delete_source id m).sources ≡ none)
      × (lookup id (delete_source id m).pending ≡ none)
      × ((k : Text)
          → let owned = is_owned id (lookup k m.entries) in
            (lookup k (delete_source id m).entries ≡ unless_owned id (lookup k m.entries))
            × (lookup k (delete_source id m).overrides
                ≡ (if owned then none else lookup k m.overrides))
            × (lookup k (delete_source id m).feed_seen
                ≡ (if owned then none else lookup k m.feed_seen)))
unfolding delete_source
delete_source-lookup id m u =
    let m' = record m { sources = delete id m.sources; pending = delete id m.pending } in
    let p = purge-Purged id m.entries m' in
    (
      ap (lookup id) p.1 ∙ rw (lookup-delete id id m.sources, beq_refl id),
      ap (lookup id) p.2 ∙ rw (lookup-delete id id m.pending, beq_refl id),
      λ k. (
        (p.0 k).0 ∙ unless-owned_in id k m.entries u,
        (p.0 k).1 ∙ rw (owned_in-lookup id k m.entries u),
        (p.0 k).2 ∙ rw (owned_in-lookup id k m.entries u),
      ),
    )
