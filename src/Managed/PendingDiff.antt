-- ===== src/Managed/PendingDiff.antt =====
-- internal/aghmanaged/manager.go: what an import that waits for review would change, and what its
-- entries would do to the feed.
pub mod Counted
use mirage_chaff.Base.{
  ℕ, Bool, true, false, not, ◌&&◌, ◌||◌, List, [], ◌∷◌, ◌++◌, map, Option, none, some, length,
  if◌then◌else◌,
}
use mirage_chaff.Base.Text.{Text, codes, text_eq}
use mirage_chaff.Base.Sort.{sort_by, text_lt, then_by}
use mirage_chaff.Base.Dict.{Dict, lookup, text_key}
use mirage_chaff.Managed.Types.{Entry, Source, Ip, Manager, Outcome, refused, done, not_exist}
use mirage_chaff.Managed.Rows.{
  SourceRef, source_refs_from_map, source_ref_map, effective_config, apply_override, override_of,
  string_in_slice, nonempty,
}
use mirage_chaff.Managed.Sources.{name_source}
use mirage_chaff.Managed.Imports.{by_id, entry_changed, entries_for_source, count_imported}
use mirage_chaff.Managed.Sync.{Fetched, failed, fetched}
use mirage_chaff.Managed.Groups.{entry_key}
use mirage_chaff.Managed.Conflicts.{build_conflicts, conflict_keys}
use mirage_chaff.Managed.Feed.{feed_item}

pub record FeedImpact : Type 0 where
  pub would_include : Bool
  pub reason : Text
  pub line_count : ℕ

pub record PendingDiffEntry : Type 0 where
  pub entry : Entry
  pub source_refs : List SourceRef
  pub previous : Option Entry
  pub changed_fields : List Text
  pub feed_impact : FeedImpact

pub record PendingDiff : Type 0 where
  pub source : Source
  pub added : List PendingDiffEntry
  pub removed : List PendingDiffEntry
  pub changed : List PendingDiffEntry

unfoldable pub entries_slice : Dict Text Entry → List Entry
entries_slice [] = []
entries_slice ((id, e) ∷ es) = e ∷ entries_slice es

unfoldable pub put_source : Text → List Entry → List Entry
put_source id [] = []
put_source id (e ∷ es) = record e { source_name = id } ∷ put_source id es

unfoldable pub replace_source_entries : List Entry → Text → List Entry → List Entry
replace_source_entries [] id next = put_source id next
replace_source_entries (e ∷ es) id next =
    if text_eq e.source_name id
    then replace_source_entries es id next
    else e ∷ replace_source_entries es id next

unfoldable pub conflict_keys_for_entries : (Text → Text) → Manager → List Entry → List Text
conflict_keys_for_entries hash m es = conflict_keys (
    build_conflicts hash (map (apply_override m.overrides) es) m.overrides (effective_config m)
      m.sources)

unfoldable pub feed_impact : (Text → Option Ip) → Manager → List Text → Entry → FeedImpact
feed_impact parse_ip m keys raw =
    let e = apply_override m.overrides raw in
    let item =
      feed_item parse_ip e (override_of e.id m.overrides) (effective_config m) m.target_ips
        (string_in_slice (entry_key e) keys) in
    record { would_include = item.included; reason = item.reason; line_count = length item.lines }

unfoldable pub pending_diff_changed_fields : Entry → Entry → List Text
pending_diff_changed_fields prev next =
    (if text_eq prev.original_rule next.original_rule then [] else codes "original_rule" ∷ [])
    ++ ((if text_eq prev.category next.category then [] else codes "category" ∷ [])
        ++ (if text_eq prev.resource_type next.resource_type
            then []
            else codes "resource_type" ∷ []))

unfoldable pub diff_entry :
    (Text → Option Ip) → Manager → List Text → Option Entry → Entry → PendingDiffEntry
diff_entry parse_ip m keys previous e = record {
  entry = e;
  source_refs = source_refs_from_map (source_ref_map m.sources) (e.source_name ∷ []);
  previous = previous;
  changed_fields = elim previous [ none ↦ [] | some old ↦ pending_diff_changed_fields old e ];
  feed_impact = feed_impact parse_ip m keys e;
}

module _ (item : Option Entry → Entry → PendingDiffEntry) (p : Dict Text Entry) where
  -- The entries of the list that are not in the map.
  unfoldable pub absent_entries : List Entry → List PendingDiffEntry
  absent_entries [] = []
  absent_entries (e ∷ es) = elim (lookup e.id p) [
    | none ↦ item none e ∷ absent_entries es
    | some old ↦ absent_entries es
  ]

  -- The entries of the list that differ from the map's.
  unfoldable pub changed_entries : List Entry → List PendingDiffEntry
  changed_entries [] = []
  changed_entries (e ∷ es) = elim (lookup e.id p) [
    | none ↦ changed_entries es
    | some old ↦
        if entry_changed old e then item (some old) e ∷ changed_entries es else changed_entries es
  ]

unfoldable pub diff_less : PendingDiffEntry → PendingDiffEntry → Bool
diff_less a b =
    then_by a.entry.domain b.entry.domain
      (then_by a.entry.path b.entry.path (text_lt a.entry.id b.entry.id))

-- `pendingDiffLocked`
unfoldable pub pending_diff_of :
    (Text → Option Ip) → (Text → Text) → Manager → Source → List Entry → List Entry → PendingDiff
pending_diff_of parse_ip hash m src prev next =
    let current = entries_slice m.entries in
    let current_keys = conflict_keys_for_entries hash m current in
    let next_keys = conflict_keys_for_entries hash m (replace_source_entries current src.id next) in
    let new_item = diff_entry parse_ip m next_keys in
    let old_item = diff_entry parse_ip m current_keys in
    record {
      source = src;
      added = sort_by diff_less (absent_entries new_item (by_id prev []) next);
      removed = sort_by diff_less (absent_entries old_item (by_id next []) prev);
      changed = sort_by diff_less (changed_entries new_item (by_id prev []) next);
    }

unfoldable pub pending_diff :
    (Text → Option Ip) → (Text → Text) → Text → Manager → Outcome PendingDiff
pending_diff parse_ip hash id m = elim (lookup id m.sources) [
  | none ↦ refused not_exist
  | some src ↦ elim (lookup id m.pending) [
    | none ↦ refused not_exist
    | some next ↦ done (pending_diff_of parse_ip hash m src (entries_for_source m.entries id) next)
  ]
]

-- `PreviewSource` with what its fetch gave: the source with its counts, and the entries as they would
-- be. An error is returned as the source's last error.
unfoldable pub preview_source :
    (Text → Option Ip) → (Text → Text) → Source → Fetched → Manager → Source × List PendingDiffEntry
preview_source parse_ip hash s (failed message) m =
    let src = name_source hash s in (record src { last_error = message }, [])
preview_source parse_ip hash s (fetched es) m =
    let src = name_source hash s in
    let counts = count_imported es in
    let keys =
      conflict_keys_for_entries hash m
        (replace_source_entries (entries_slice m.entries) src.id es) in
    (
      record src { entries = length es; unsupported = counts.0; allow_exceptions = counts.1 },
      sort_by diff_less (map (diff_entry parse_ip m keys none) es),
    )
