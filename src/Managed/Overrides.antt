-- ===== src/Managed/Overrides.antt =====
-- internal/aghmanaged/manager.go: the administrator's overrides, patched one by one or in bulk, and
-- the rollback of a patch. What `persistState` writes is not modelled: each operation returns the
-- state that it would write. The clock's reading and the rollback's id, a hash that takes the time
-- in, are arguments.
pub mod Rollback
pub mod Captured
pub mod Restored
pub mod Undo
pub mod Newer
use mirage_chaff.Base.{
  ℕ, ◌-◌, Bool, true, false, List, [], ◌∷◌, ◌++◌, map, Option, none, some, ltb, length, drop,
  if◌then◌else◌,
}
use mirage_chaff.Base.Text.{Text, text_eq, codes}
use mirage_chaff.Base.Strings.{trim_space}
use mirage_chaff.Base.Dict.{Dict, lookup, insert, delete, text_key}
use mirage_chaff.Managed.Types.{
  Entry, no_entry, CatalogOverride, Manager, RollbackRecord, Outcome, refused, done, not_exist,
  ids_required, entry_not_found, newer_overlaps, or_else,
}
use mirage_chaff.Managed.Rows.{
  CatalogRow, catalog_row_from_entry, apply_override, sort_catalog_rows, nonempty, string_in_slice,
  override_of,
}

-- `if src.X != nil { dst.X = src.X }`
unfoldable pub newer {ℓ} : {A : Type ℓ} → Option A → Option A → Option A
newer none old = old
newer (some v) old = some v

-- The override after `mergeOverride(&dst, src)`.
unfoldable pub merge_override : CatalogOverride → CatalogOverride → CatalogOverride
merge_override dst src = record {
  category = nonempty src.category dst.category;
  resource_type = nonempty src.resource_type dst.resource_type;
  risk = nonempty src.risk dst.risk;
  confidence = nonempty src.confidence dst.confidence;
  review_status = nonempty src.review_status dst.review_status;
  verified = newer src.verified dst.verified;
  expected_catalog = nonempty src.expected_catalog dst.expected_catalog;
  action = nonempty src.action dst.action;
  rewrite_enabled = newer src.rewrite_enabled dst.rewrite_enabled;
  rewrite_reason = nonempty src.rewrite_reason dst.rewrite_reason;
  notes = nonempty src.notes dst.notes;
  last_changed_by = dst.last_changed_by;
}

unfoldable pub set_last_changed_by : CatalogOverride → List Text → CatalogOverride
set_last_changed_by dst [] = dst
set_last_changed_by dst (actor ∷ rest) =
    if text_eq (trim_space actor) [] then dst else record dst { last_changed_by = trim_space actor }

-- The loop with the ids seen so far.
unfoldable pub unique_from : List Text → List Text → List Text
unique_from seen [] = []
unique_from seen (id ∷ ids) = elim (string_in_slice id seen) [
  | true ↦ unique_from seen ids
  | false ↦ id ∷ unique_from (id ∷ seen) ids
]

unfoldable pub unique_strings : List Text → List Text
unique_strings ids = unique_from [] ids

abbrev pub is_present {ℓ} : {A : Type ℓ} → Option A → Bool
is_present none = false
is_present (some a) = true

-- The overrides of the ids, and whether there was one.
unfoldable pub capture_loop :
    Dict Text CatalogOverride
    → List Text
    → Dict Text CatalogOverride × Dict Text Bool
    → Dict Text CatalogOverride × Dict Text Bool
capture_loop overrides [] out = out
capture_loop overrides (id ∷ ids) (before, exists) = capture_loop overrides ids (
  insert id (override_of id overrides) before,
  insert id (is_present (lookup id overrides)) exists,
)

unfoldable pub capture_overrides :
    Dict Text CatalogOverride → List Text → Dict Text CatalogOverride × Dict Text Bool
capture_overrides overrides ids = capture_loop overrides (unique_strings ids) ([], [])

unfoldable pub after_loop :
    Dict Text CatalogOverride → List Text → Dict Text CatalogOverride → Dict Text CatalogOverride
after_loop overrides [] after = after
after_loop overrides (id ∷ ids) after =
    after_loop overrides ids (insert id (override_of id overrides) after)

abbrev pub max_rollbacks : ℕ
max_rollbacks = 50

-- `s[len(s)-50:]` when there are more.
unfoldable pub newest {ℓ} : {A : Type ℓ} → List A → List A
newest rs = if ltb max_rollbacks (length rs) then drop (length rs - max_rollbacks) rs else rs

-- `rollback` is the id and the time of the new record.
unfoldable pub new_record :
    Text × ℕ
    → Text
    → List Text
    → Dict Text CatalogOverride × Dict Text Bool
    → Text
    → Dict Text CatalogOverride
    → RollbackRecord
new_record (rb, now) action unique (before, exists) summary overrides = record {
  id = rb;
  time = now;
  action = action;
  entry_ids = unique;
  before = before;
  before_exists = exists;
  after = after_loop overrides unique [];
  summary = summary;
}

unfoldable pub record_rollback :
    Text × ℕ
    → Text
    → List Text
    → Dict Text CatalogOverride × Dict Text Bool
    → Text
    → Manager
    → Manager
record_rollback rollback action ids captured summary m = record m {
  rollbacks = newest (
      m.rollbacks
      ++ new_record rollback action (unique_strings ids) captured summary m.overrides ∷ []);
}

-- One entry's new override.
unfoldable pub patched :
    CatalogOverride → List Text → Text → Dict Text CatalogOverride → CatalogOverride
patched ov changed_by id overrides =
    set_last_changed_by (merge_override (override_of id overrides) ov) changed_by

-- The loop that merges the override into the entries'.
unfoldable pub patch_loop :
    CatalogOverride → List Text → List Text → Dict Text CatalogOverride → Dict Text CatalogOverride
patch_loop ov changed_by [] overrides = overrides
patch_loop ov changed_by (id ∷ ids) overrides =
    patch_loop ov changed_by ids (insert id (patched ov changed_by id overrides) overrides)

-- The first id that no entry has.
unfoldable pub missing_entry : Dict Text Entry → List Text → Option Text
missing_entry entries [] = none
missing_entry entries (id ∷ ids) = elim (lookup id entries) [
  | none ↦ some id
  | some e ↦ missing_entry entries ids
]

-- Overrides before and after, with the record of the change.
unfoldable pub override_all :
    Text × ℕ → Text → Text → List Text → CatalogOverride → List Text → Manager → Manager
override_all rollback action summary ids ov changed_by m =
    record_rollback rollback action ids (capture_overrides m.overrides ids) summary
      (record m { overrides = patch_loop ov changed_by ids m.overrides })

unfoldable pub row_for : Manager → Text → CatalogRow
row_for m id =
    catalog_row_from_entry m (apply_override m.overrides (or_else (lookup id m.entries) no_entry))
      (override_of id m.overrides)

unfoldable pub rows_for_ids : Manager → List Text → List CatalogRow
rows_for_ids m ids = sort_catalog_rows (map (row_for m) ids)

unfoldable pub patch_entry :
    Text × ℕ → Text → CatalogOverride → List Text → Manager → Outcome (CatalogRow × Manager)
patch_entry rollback id ov changed_by m = elim (lookup id m.entries) [
  | none ↦ refused not_exist
  | some e ↦
      let m' =
        override_all rollback (codes "catalog patch") (codes "patched 1 entry") (id ∷ []) ov
          changed_by m in
      done (
        catalog_row_from_entry m' (apply_override m'.overrides e)
            (patched ov changed_by id m.overrides),
        m',
      )
]

-- `summary` is the text with the number of ids.
unfoldable pub bulk_patch_entries :
    Text × ℕ
    → Text
    → List Text
    → CatalogOverride
    → List Text
    → Manager
    → Outcome (List CatalogRow × Manager)
bulk_patch_entries rollback summary [] ov changed_by m = refused ids_required
bulk_patch_entries rollback summary (id ∷ ids) ov changed_by m =
    elim (missing_entry m.entries (id ∷ ids)) [
      | some missing ↦ refused (entry_not_found missing)
      | none ↦
          let m' =
            override_all rollback (codes "catalog bulk patch") summary (id ∷ ids) ov changed_by m in
          done (rows_for_ids m' (id ∷ ids), m')
    ]
