-- ===== src/Managed/Imports.antt =====
-- internal/aghmanaged/manager.go: what the import of a list of entries changes, and whether it is
-- held for review.
pub mod Applied
use mirage_chaff.Base.{
  ℕ, ◌+◌, ◌*◌, ◌/◌, Bool, true, false, not, ◌&&◌, ◌||◌, List, [], ◌∷◌, none, some, ltb, leb, ◌==◌,
  length, if◌then◌else◌,
}
use mirage_chaff.Base.Text.{Text, text_eq}
use mirage_chaff.Base.Dict.{Dict, lookup, insert, delete, text_key}
use mirage_chaff.Managed.Types.{Entry, Source, Scheduler, Manager, layer_dom, allow_exception}

unfoldable pub entries_for_source : Dict Text Entry → Text → List Entry
entries_for_source [] id = []
entries_for_source ((eid, e) ∷ es) id =
    if text_eq e.source_name id then e ∷ entries_for_source es id else entries_for_source es id

-- The entries by id, the last one where an id comes twice.
unfoldable pub by_id : List Entry → Dict Text Entry → Dict Text Entry
by_id [] d = d
by_id (e ∷ es) d = by_id es (insert e.id e d)

unfoldable pub entry_changed : Entry → Entry → Bool
entry_changed old e =
    not (text_eq old.original_rule e.original_rule)
    || not (text_eq old.category e.category)
    || not (text_eq old.resource_type e.resource_type)

unfoldable pub count_added : Dict Text Entry → List Entry → ℕ
count_added p [] = 0
count_added p (e ∷ es) = elim (lookup e.id p) [ none ↦ 1 | some old ↦ 0 ] + count_added p es

unfoldable pub count_changed : Dict Text Entry → List Entry → ℕ
count_changed p [] = 0
count_changed p (e ∷ es) =
    elim (lookup e.id p) [ none ↦ 0 | some old ↦ if entry_changed old e then 1 else 0 ]
    + count_changed p es

unfoldable pub count_missing : Dict Text Entry → Dict Text Entry → ℕ
count_missing n [] = 0
count_missing n ((id, e) ∷ p) = elim (lookup id n) [ none ↦ 1 | some new ↦ 0 ] + count_missing n p

-- How many were added, removed and changed.
unfoldable pub diff_entries : List Entry → List Entry → ℕ × ℕ × ℕ
diff_entries prev next =
    let p = by_id prev [] in
    (count_added p next, count_missing (by_id next []) p, count_changed p next)

unfoldable pub is_unsupported : Entry → Bool
is_unsupported e = e.unsupported || text_eq e.layer layer_dom

-- How many are unsupported, and how many are allow exceptions.
unfoldable pub count_imported : List Entry → ℕ × ℕ
count_imported [] = (0, 0)
count_imported (e ∷ es) =
    let (unsupported, allow) = count_imported es in
    (
      (if is_unsupported e then 1 else 0) + unsupported,
      (if text_eq e.category allow_exception then 1 else 0) + allow,
    )

unfoldable pub large_change : Source → Scheduler → Bool
large_change src cfg =
    if not cfg.large_change_requires_review
    then false
    else if ltb 0 cfg.large_change_threshold_count
        && leb cfg.large_change_threshold_count (src.removed + src.changed)
    then true
    else if cfg.large_change_threshold_percent == 0 || src.entries == 0
    then false
    else leb cfg.large_change_threshold_percent ((src.removed + src.changed) * 100 / src.entries)

-- The loop that drops the entries of a source with their feed times; the overrides stay.
unfoldable pub drop_entries :
    Text → Dict Text Entry → Dict Text Entry × Dict Text ℕ → Dict Text Entry × Dict Text ℕ
drop_entries id [] left = left
drop_entries id ((eid, e) ∷ es) (entries, feed_seen) = drop_entries id es (
    if text_eq e.source_name id
    then (delete eid entries, delete eid feed_seen)
    else (entries, feed_seen))

unfoldable pub put_entries : Text → List Entry → Dict Text Entry → Dict Text Entry
put_entries id [] d = d
put_entries id (e ∷ es) d = put_entries id es (insert e.id (record e { source_name = id }) d)

unfoldable pub apply_entries : Text → List Entry → Manager → Manager
apply_entries id es m =
    let (entries, feed_seen) = drop_entries id m.entries (m.entries, m.feed_seen) in
    record m { entries = put_entries id es entries; feed_seen = feed_seen }

-- The counts of an import.
unfoldable pub with_counts : Text → Dict Text Entry → List Entry → Source → Source
with_counts id current entries src =
    let (added, removed, changed) = diff_entries (entries_for_source current id) entries in
    let (unsupported, allow) = count_imported entries in
    record src {
      entries = length entries;
      added = added;
      removed = removed;
      changed = changed;
      unsupported = unsupported;
      allow_exceptions = allow;
    }
