-- ===== src/Managed/Overrides/Rollback.antt =====
-- internal/aghmanaged/manager.go: the rollback of a patch.
use mirage_chaff.Base.{true, false, List, [], ◌∷◌, ◌++◌, Option, none, some, if◌then◌else◌}
use mirage_chaff.Base.Text.{Text, text_eq}
use mirage_chaff.Base.Dict.{Dict, lookup, insert, delete, text_key}
use mirage_chaff.Managed.Types.{
  CatalogOverride, Manager, RollbackRecord, Outcome, refused, done, not_exist, entry_not_found,
  newer_overlaps, or_else,
}
use mirage_chaff.Managed.Rows.{CatalogRow, string_in_slice, override_of}
use mirage_chaff.Managed.Overrides.{missing_entry, rows_for_ids}

-- The records before and after the first one with the id.
unfoldable pub find_record :
    Text → List RollbackRecord → Option (List RollbackRecord × RollbackRecord × List RollbackRecord)
find_record id [] = none
find_record id (r ∷ rs) = elim (text_eq r.id id) [
  | true ↦ some ([], r, rs)
  | false ↦ elim (find_record id rs) [
    | none ↦ none
    | some (older, found, newer) ↦ some (r ∷ older, found, newer)
  ]
]

unfoldable pub first_in : List Text → List Text → Option Text
first_in targets [] = none
first_in targets (id ∷ ids) = elim (string_in_slice id targets) [
  | true ↦ some id
  | false ↦ first_in targets ids
]

-- The first entry of a newer record that is also one of the targets.
unfoldable pub overlap : List Text → List RollbackRecord → Option Text
overlap targets [] = none
overlap targets (r ∷ rs) = elim (first_in targets r.entry_ids) [
  | some id ↦ some id
  | none ↦ overlap targets rs
]

-- The loop that puts the former overrides back.
unfoldable pub restore_loop :
    RollbackRecord → List Text → Dict Text CatalogOverride → Dict Text CatalogOverride
restore_loop rec [] overrides = overrides
restore_loop rec (id ∷ ids) overrides = restore_loop rec ids (
    if or_else (lookup id rec.before_exists) false
    then insert id (override_of id rec.before) overrides
    else delete id overrides)

unfoldable pub rollback : Text → Manager → Outcome (List CatalogRow × Manager)
rollback id m = elim (find_record id m.rollbacks) [
  | none ↦ refused not_exist
  | some (older, rec, newer) ↦ elim (missing_entry m.entries rec.entry_ids) [
    | some missing ↦ refused (entry_not_found missing)
    | none ↦ elim (overlap rec.entry_ids newer) [
      | some id ↦ refused (newer_overlaps id)
      | none ↦
          let m' = record m {
            overrides = restore_loop rec rec.entry_ids m.overrides;
            rollbacks = older ++ newer;
          } in
          done (rows_for_ids m' rec.entry_ids, m')
    ]
  ]
]
