-- ===== src/Managed/Examples/Changes.antt =====
-- Patches, rollbacks and conflicts on the small catalog.
use mirage_chaff.Base.{◌≡◌, refl, true, false, List, [], ◌∷◌, none, some}
use mirage_chaff.Base.Text.{Text, codes, text_eq}
use mirage_chaff.Base.Dict.{lookup, insert, delete, text_key}
use mirage_chaff.Base.Int.{ℤ, pos, negsuc}
use mirage_chaff.Managed.Types.{CatalogOverride, no_override, Source, Manager, done, RollbackRecord}
use mirage_chaff.Managed.Rows.{CatalogRow, nonempty, string_in_slice}
use mirage_chaff.Managed.Overrides
use mirage_chaff.Managed.Overrides.{
  missing_entry, record_rollback, newest, new_record, unique_strings, unique_from,
  capture_overrides, capture_loop, after_loop, patch_loop, merge_override, newer,
  set_last_changed_by, override_all, patch_entry, bulk_patch_entries, rows_for_ids,
}
use mirage_chaff.Managed.Overrides.Rollback.{find_record, overlap, restore_loop, first_in, rollback}
use mirage_chaff.Managed.Overrides.Undo.{rollback-bulk_patch_entries}
use mirage_chaff.Managed.Overrides.Newer.{RollsBack, rollback-RollsBack}
use mirage_chaff.Managed.Groups.{conflict_participant, is_allow}
use mirage_chaff.Managed.Resolve.{winner_loop}
use mirage_chaff.Managed.Resolve.Winner.{IsWinner, winner_loop-IsWinner}
use mirage_chaff.Managed.Settings.{new_manager}
use mirage_chaff.Managed.Sources.{
  upsert_source, delete_source, with_defaults, name_source, source_problem, valid_source_type,
  valid_stale_feed_policy, keep_history,
}
use mirage_chaff.Managed.Invariant.{IsValid, upserts, deletes, here, next}
use mirage_chaff.Managed.Invariant.Kept.{Reach-IsValid}
use mirage_chaff.Managed.Examples.{manager, config, source, entry_a, a, b, s, hash}

abbrev rejecting : CatalogOverride
rejecting = record no_override { review_status = codes "rejected" }

abbrev rb : Text
rb = codes "rb_1"

-- Both entries rejected.
abbrev patched : Manager
unfolding override_all
patched =
    override_all (rb, 7) (codes "catalog bulk patch") (codes "2") (a ∷ b ∷ []) rejecting [] manager

abbrev patched_rows : List CatalogRow
unfolding rows_for_ids
patched_rows = rows_for_ids patched (a ∷ b ∷ [])

bulk_patched :
    bulk_patch_entries (rb, 7) (codes "2") (a ∷ b ∷ []) rejecting [] manager
    ≡ done (patched_rows, patched)
unfolding bulk_patch_entries missing_entry lookup text_eq patched_rows rows_for_ids patched
    override_all
bulk_patched = refl

rollback-bulk_patch_entries_example :
    (rows' : List CatalogRow) × (m'' : Manager) × (rollback rb patched ≡ done (rows', m''))
    × ((k : Text) → lookup k m''.overrides ≡ lookup k manager.overrides)
    × (m''.entries ≡ manager.entries)
rollback-bulk_patch_entries_example =
    rollback-bulk_patch_entries rb 7 (codes "2") (a ∷ b ∷ []) [] rejecting manager patched
      patched_rows tt bulk_patched

-- The patch taken back.
abbrev undone : Manager
undone = record patched { overrides = []; rollbacks = [] }

undo : rollback rb patched ≡ done (rows_for_ids undone (a ∷ b ∷ []), undone)
unfolding rollback find_record patched record_rollback newest text_eq new_record missing_entry
    unique_strings unique_from string_in_slice lookup overlap restore_loop capture_overrides
    capture_loop insert delete after_loop first_in override_all patch_loop Overrides.patched
    merge_override newer nonempty set_last_changed_by
undo = refl

rollback-RollsBack_example :
    (older : List RollbackRecord) × (rec : RollbackRecord) × (newer : List RollbackRecord)
    × RollsBack rb patched undone older rec newer
rollback-RollsBack_example =
    rollback-RollsBack rb patched undone (rows_for_ids undone (a ∷ b ∷ [])) undo

-- A row of a source with a priority.
abbrev row : ℤ → CatalogRow
row priority = record {
  entry = entry_a;
  source_ids = s ∷ [];
  source_refs = [];
  source_priority = priority;
  action = [];
  notes = [];
  rewrite_enabled = true;
  rewrite_reason = [];
  last_changed_by = [];
  last_feed_included_at = 0;
}

abbrev rows : List CatalogRow
rows = row (negsuc 3) ∷ row (pos 5) ∷ row (pos 2) ∷ []

highest : winner_loop (none, false) rows ≡ (some (row (pos 5)), false)
unfolding winner_loop conflict_participant is_allow text_eq
highest = refl

winner_loop-IsWinner_example : IsWinner (row (pos 5)) rows
winner_loop-IsWinner_example = winner_loop-IsWinner rows false (row (pos 5)) highest

-- A source is added to a new manager.
abbrev kept_source : Source
kept_source = record (source s) { stale_feed_policy = codes "exclude" }

abbrev stored : Manager
stored = record manager { sources = (s, kept_source) ∷ []; entries = [] }

upserted : upsert_source hash (source s) (new_manager config) ≡ done (kept_source, stored)
unfolding upsert_source new_manager with_defaults name_source nonempty text_eq source_problem
    valid_source_type valid_stale_feed_policy keep_history lookup insert
upserted = refl

Reach-IsValid_example : IsValid (delete_source s stored)
Reach-IsValid_example = Reach-IsValid config (delete_source s stored) (
    next (next here (upserts hash (source s) kept_source (new_manager config) stored upserted))
      (deletes s stored))
