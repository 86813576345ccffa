-- ===== src/Managed/PendingDiff/Counted.antt =====
-- The diff shown for a review against the counts of the sync.
use mirage_chaff.Base.{
  ◌+◌, ◌≡◌, refl, List, [], ◌∷◌, Option, none, length, Bool-cases, Option-cases, inl, inr, arith,
}
use mirage_chaff.Base.Text.{Text, text_eq}
use mirage_chaff.Base.Dict.{Dict, lookup, insert, text_key}
use mirage_chaff.Base.Members.{length-sort_by}
use mirage_chaff.Managed.Types.{Entry, Source, Ip, Manager}
use mirage_chaff.Managed.Imports.{by_id, count_added, count_changed, count_missing, diff_entries}
use mirage_chaff.Managed.PendingDiff.{
  PendingDiffEntry, diff_less, absent_entries, changed_entries, pending_diff_of, entries_slice,
  diff_entry, conflict_keys_for_entries, replace_source_entries,
}

absent_entries-count :
    (item : Option Entry → Entry → PendingDiffEntry) (p : Dict Text Entry) (es : List Entry)
    → length (absent_entries item p es) ≡ count_added p es
unfolding absent_entries count_added
absent_entries-count item p [] = refl
absent_entries-count item p (e ∷ es) = elim (Option-cases (lookup e.id p)) [
  | inl q ↦ rw (q, absent_entries) (omega (arith, absent_entries-count item p es))
  | inr (v, q) ↦ rw (q, absent_entries) (omega (arith, absent_entries-count item p es))
]

changed_entries-count :
    (item : Option Entry → Entry → PendingDiffEntry) (p : Dict Text Entry) (es : List Entry)
    → length (changed_entries item p es) ≡ count_changed p es
unfolding changed_entries count_changed
changed_entries-count item p [] = refl
changed_entries-count item p (e ∷ es) = elim (Option-cases (lookup e.id p)) [
  | inl q ↦ rw (q, changed_entries) (omega (arith, changed_entries-count item p es))
  | inr (v, q) ↦ rw (q, changed_entries) (ground (arith, changed_entries-count item p es))
]

-- The ids of the entries are all different, and none is in the map.
abbrev pub HasNewIds : Dict Text Entry → List Entry → Type 0
HasNewIds d [] = Unit {0}
HasNewIds d (e ∷ es) = (lookup e.id d ≡ none) × HasNewIds (insert e.id e d) es

count_missing-insert :
    (n d : Dict Text Entry) (e : Entry)
    → lookup e.id d ≡ none
    → count_missing n (insert e.id e d) ≡ count_added n (e ∷ []) + count_missing n d
unfolding count_missing insert count_added lookup
count_missing-insert n [] e h = omega arith
count_missing-insert n ((j, v) ∷ d) e h = elim (Bool-cases (text_eq j e.id)) [
  | inl q ↦ absurd (cc (rw q at h))
  | inr q ↦ rw (q, count_missing) (omega (arith, count_missing-insert n d e (rw q at h)))
]

count_missing-by_id :
    (n : Dict Text Entry) (es : List Entry) (d : Dict Text Entry)
    → HasNewIds d es
    → count_missing n (by_id es d) ≡ count_added n es + count_missing n d
unfolding by_id count_added
count_missing-by_id n [] d h = omega arith
count_missing-by_id n (e ∷ es) d h =
    omega (arith, count_missing-by_id n es (insert e.id e d) h.1, count_missing-insert n d e h.0)

-- The diff that an administrator reviews lists as many added, removed and changed entries as the
-- sync has counted, where the ids of the source's current entries are different.
pub pending_diff-counts :
    (parse_ip : Text → Option Ip) (hash : Text → Text) (m : Manager) (src : Source)
    (prev next : List Entry)
    → HasNewIds [] prev
    → (let diff = pending_diff_of parse_ip hash m src prev next in
        let counts = diff_entries prev next in
        (length diff.added ≡ counts.0)
        × (length diff.removed ≡ counts.1)
        × (length diff.changed ≡ counts.2))
unfolding pending_diff_of diff_entries count_missing
pending_diff-counts parse_ip hash m src prev next h =
    let current = entries_slice m.entries in
    let p = by_id prev [] in
    let n = by_id next [] in
    let old_item = diff_entry parse_ip m (conflict_keys_for_entries hash m current) in
    let new_item =
      diff_entry parse_ip m
        (conflict_keys_for_entries hash m (replace_source_entries current src.id next)) in
    omega (
      arith,
      length-sort_by diff_less (absent_entries new_item p next),
      length-sort_by diff_less (absent_entries old_item n prev),
      length-sort_by diff_less (changed_entries new_item p next),
      absent_entries-count new_item p next,
      absent_entries-count old_item n prev,
      changed_entries-count new_item p next,
      count_missing-by_id n prev [] h,
    )
