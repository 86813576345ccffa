-- ===== src/Managed/Groups.antt =====
-- internal/aghmanaged/manager.go: the catalog's rows by domain and path, and which of them count for a
-- conflict.
use mirage_chaff.Base.{Bool, true, false, not, ◌||◌, List, [], ◌∷◌, ◌++◌, ◌==◌, if◌then◌else◌}
use mirage_chaff.Base.Text.{Text, codes, text_eq, to_lower}
use mirage_chaff.Base.Strings.{trim_space}
use mirage_chaff.Base.Dict.{Dict, lookup, insert, text_key}
use mirage_chaff.Managed.Types.{
  Entry, CatalogOverride, Source, ManagedConfig, or_else, allow_exception,
}
use mirage_chaff.Managed.Rows.{
  CatalogRow, rewrite_enabled, source_refs_from_map, source_ref_map, source_priority, override_of,
}

unfoldable pub domain_path_key : Text → Text → Text
domain_path_key domain path = domain ++ 0 ∷ path

unfoldable pub entry_key : Entry → Text
unfolding domain_path_key
entry_key e = domain_path_key e.domain e.path

-- The parts before and behind the first zero byte.
unfoldable pub split_entry_key : Text → Text × Text
split_entry_key [] = ([], [])
split_entry_key (c ∷ s) = elim (c == 0) [
  | true ↦ ([], s)
  | false ↦ let rest = split_entry_key s in (c ∷ rest.0, rest.1)
]

unfoldable pub effective_mirage_action : CatalogRow → Text
effective_mirage_action row =
    if not (text_eq row.action [])
    then row.action
    else elim row.entry.action_candidates [ [] ↦ [] | a ∷ more ↦ a ]

abbrev pub missing_action : Text
missing_action = codes "missing mirage action"

abbrev pub unsafe_action : Text
unsafe_action = codes "unsafe mirage action"

unfoldable pub action_reason : Text → Text
action_reason action =
    if text_eq action []
    then missing_action
    else if text_eq action (codes "passthrough")
        || text_eq action (codes "forward-asis")
        || text_eq action (codes "forward_as_is")
    then unsafe_action
    else []

unfoldable pub is_allow : CatalogRow → Bool
is_allow row = text_eq row.entry.category allow_exception

unfoldable pub rewrite_action_conflict_reason : CatalogRow → Text
rewrite_action_conflict_reason row =
    if not row.rewrite_enabled || is_allow row
    then []
    else action_reason (to_lower (trim_space (effective_mirage_action row)))

unfoldable pub conflict_participant : CatalogRow → Bool
conflict_participant row = is_allow row || row.rewrite_enabled

-- The row of an entry, whose overrides are applied already.
unfoldable pub conflict_row :
    Dict Text CatalogOverride → ManagedConfig → Dict Text Source → Entry → CatalogRow
conflict_row overrides cfg sources e =
    let ov = override_of e.id overrides in
    record {
      entry = e;
      source_ids = e.source_name ∷ [];
      source_refs = source_refs_from_map (source_ref_map sources) (e.source_name ∷ []);
      source_priority = source_priority sources e.source_name;
      action = ov.action;
      notes = ov.notes;
      rewrite_enabled = rewrite_enabled e ov cfg;
      rewrite_reason = ov.rewrite_reason;
      last_changed_by = ov.last_changed_by;
      last_feed_included_at = 0;
    }

-- The rows by key, in the order of the entries; an entry without a domain has none.
unfoldable pub group_rows :
    Dict Text CatalogOverride
    → ManagedConfig
    → Dict Text Source
    → List Entry
    → Dict Text (List CatalogRow)
    → Dict Text (List CatalogRow)
group_rows overrides cfg sources [] d = d
group_rows overrides cfg sources (e ∷ es) d = group_rows overrides cfg sources es (
    if text_eq e.domain []
    then d
    else insert (entry_key e)
        (or_else (lookup (entry_key e) d) [] ++ conflict_row overrides cfg sources e ∷ []) d)

unfoldable pub has_reason : CatalogRow → Bool
has_reason row = not (text_eq (rewrite_action_conflict_reason row) [])

-- The rows that count for a conflict.
unfoldable pub participants : List CatalogRow → List CatalogRow
participants [] = []
participants (row ∷ rows) =
    if has_reason row || conflict_participant row
    then row ∷ participants rows
    else participants rows

unfoldable pub action_reasons : List CatalogRow → List Text
action_reasons [] = []
action_reasons (row ∷ rows) =
    if has_reason row
    then rewrite_action_conflict_reason row ∷ action_reasons rows
    else action_reasons rows
