-- ===== src/Managed/Conflicts.antt =====
-- internal/aghmanaged/manager.go: entries of different sources that disagree on one domain and path,
-- and which of them the source priorities let win. The hash of a conflict's id is a parameter.
pub mod Grouped
pub mod Agree
pub mod Flagged
use mirage_chaff.Base.{
  Bool, true, false, not, ◌&&◌, ◌||◌, List, [], ◌∷◌, ◌++◌, map, Option, none, some, ltb, length,
  if◌then◌else◌,
}
use mirage_chaff.Base.Text.{Text, codes, text_eq}
use mirage_chaff.Base.Sort.{sort_by, text_lt, then_by}
use mirage_chaff.Base.Dict.{Dict, text_key}
use mirage_chaff.Managed.Types.{Entry, CatalogOverride, Source, ManagedConfig, Manager}
use mirage_chaff.Managed.Rows.{CatalogRow, apply_override, effective_config}
use mirage_chaff.Managed.Overrides.{unique_strings}
use mirage_chaff.Managed.Groups.{
  domain_path_key, split_entry_key, is_allow, group_rows, participants, action_reasons,
}

unfoldable pub any_row : (CatalogRow → Bool) → List CatalogRow → Bool
any_row p [] = false
any_row p (row ∷ rows) = p row || any_row p rows

abbrev pub is_rewrite : CatalogRow → Bool
is_rewrite row = not (is_allow row) && row.rewrite_enabled

unfoldable pub ids_of : List CatalogRow → List Text
ids_of [] = []
ids_of (row ∷ rows) = row.source_ids ++ ids_of rows

-- `sortedKeys` of the set of the texts.
unfoldable pub sorted_keys : List Text → List Text
sorted_keys ts = sort_by text_lt (unique_strings ts)

abbrev pub category_of : CatalogRow → Text
category_of row = row.entry.category

abbrev pub review_of : CatalogRow → Text
review_of row = row.entry.review_status

abbrev allow_conflict : Text
allow_conflict = codes "allow_exception conflicts with rewrite candidate"

-- Whether the set of the texts has more than one element.
unfoldable pub differ : List Text → Bool
differ ts = ltb 1 (length (unique_strings ts))

unfoldable pub reasons_of : List CatalogRow → List Text → List Text
reasons_of parts actions =
    (if differ (map category_of parts) then codes "category mismatch" ∷ [] else [])
    ++ ((if differ (map review_of parts) then codes "review_status mismatch" ∷ [] else [])
        ++ ((if any_row is_allow parts && any_row is_rewrite parts then allow_conflict ∷ [] else [])
            ++ sorted_keys actions))

unfoldable pub resolution_hint : List Text → Text
resolution_hint [] = codes "align category or review_status on the conflicting entries"
resolution_hint (reason ∷ reasons) =
    if text_eq reason allow_conflict
    then codes "disable the rewrite candidate or classify it as an allow_exception"
    else resolution_hint reasons

pub record Conflict : Type 0 where
  pub id : Text
  pub domain : Text
  pub path : Text
  pub source_ids : List Text
  pub reasons : List Text
  pub entries : List CatalogRow
  pub resolution_hint : Text

unfoldable pub conflict_id : (Text → Text) → Text → Text → Text
conflict_id hash domain path = codes "conflict_" ++ hash (domain_path_key domain path)

abbrev id_less : CatalogRow → CatalogRow → Bool
id_less a b = text_lt a.entry.id b.entry.id

unfoldable pub new_conflict :
    (Text → Text) → Text → List CatalogRow → List CatalogRow → List Text → Conflict
new_conflict hash key rows parts reasons =
    let split = split_entry_key key in
    record {
      id = conflict_id hash split.0 split.1;
      domain = split.0;
      path = split.1;
      source_ids = sorted_keys (ids_of parts);
      reasons = reasons;
      entries = sort_by id_less rows;
      resolution_hint = resolution_hint reasons;
    }

abbrev pub is_nil {ℓ} : {A : Type ℓ} → List A → Bool
is_nil [] = true
is_nil (x ∷ xs) = false

-- The conflict of one group, if it is one.
unfoldable pub conflict_in : (Text → Text) → Text → List CatalogRow → Option Conflict
conflict_in hash key rows =
    let parts = participants rows in
    let actions = action_reasons rows in
    let reasons = reasons_of parts actions in
    if ltb (length parts) 2 && is_nil actions
    then none
    else if is_nil reasons
    then none
    else some (new_conflict hash key rows parts reasons)

unfoldable pub conflicts_in : (Text → Text) → Dict Text (List CatalogRow) → List Conflict
conflicts_in hash [] = []
conflicts_in hash ((key, rows) ∷ groups) = elim (conflict_in hash key rows) [
  | none ↦ conflicts_in hash groups
  | some c ↦ c ∷ conflicts_in hash groups
]

unfoldable pub conflict_less : Conflict → Conflict → Bool
conflict_less a b = then_by a.domain b.domain (then_by a.path b.path (text_lt a.id b.id))

unfoldable pub build_conflicts :
    (Text → Text)
    → List Entry
    → Dict Text CatalogOverride
    → ManagedConfig
    → Dict Text Source
    → List Conflict
build_conflicts hash entries overrides cfg sources =
    sort_by conflict_less (conflicts_in hash (group_rows overrides cfg sources entries []))

-- The entries with their overrides.
unfoldable pub applied_entries : Dict Text CatalogOverride → Dict Text Entry → List Entry
applied_entries overrides entries =
    map (λ (kv : Text × Entry). apply_override overrides kv.1) entries

unfoldable pub list_conflicts : (Text → Text) → Manager → List Conflict
list_conflicts hash m =
    build_conflicts hash (applied_entries m.overrides m.entries) m.overrides (effective_config m)
      m.sources

-- The keys of the conflicts.
unfoldable pub conflict_keys : List Conflict → List Text
conflict_keys [] = []
conflict_keys (c ∷ cs) = domain_path_key c.domain c.path ∷ conflict_keys cs
