-- ===== src/Managed/Examples/Imports.antt =====
-- Syncs, reviews and deletions on the small catalog.
use mirage_chaff.Base.{◌≡◌, ◌<◌, refl, true, false, [], ◌∷◌, some, length, arith}
use mirage_chaff.Base.Text.{Text, codes, text_eq}
use mirage_chaff.Base.Dict.{lookup, insert, text_key}
use mirage_chaff.Base.Keys.{HasUniqueKeys}
use mirage_chaff.Managed.Types.{Entry, Source, Manager, done}
use mirage_chaff.Managed.Sources.{delete_source}
use mirage_chaff.Managed.Imports.{
  diff_entries, by_id, count_added, count_missing, count_changed, entries_for_source,
  count_imported, large_change, with_counts, is_unsupported, entry_changed,
}
use mirage_chaff.Managed.Imports.Applied.{unless_owned}
use mirage_chaff.Managed.Sync.{
  fetched, SyncRun, sync_source, finish_sync, finish_with, settle, store_source, keep_pending,
  with_success, approve_source,
}
use mirage_chaff.Managed.Sync.Review.{unreviewed, approve-sync_source}
use mirage_chaff.Managed.Sync.Overwrites.{
  SameSettings, finish_sync-settings, empty_import-unreviewed,
}
use mirage_chaff.Managed.Examples.{manager, source, entry, s, t}

-- The source's only entry is replaced by another.
abbrev new_entry : Entry
new_entry = entry (codes "c") s (codes "new.com") (codes "candidate")

abbrev run : SyncRun
run = record { result = fetched (new_entry ∷ []); started = 100; ended = 105; next_sync = 900 }

unique : HasUniqueKeys manager.entries
unfolding lookup text_eq
unique = (refl, (refl, tt))

-- The source and the state with the import held: all of the source's entries are removed.
abbrev held_source : Source
held_source = record (source s) {
  next_sync = 900;
  last_sync_started = 100;
  last_success = 105;
  entries = 1;
  added = 1;
  removed = 1;
  pending_review = true;
}

abbrev held : Manager
held = record manager {
  sources = (s, held_source) ∷ (t, source t) ∷ [];
  pending = (s, new_entry ∷ []) ∷ [];
}

synced : sync_source s run manager ≡ done (held_source, held)
unfolding sync_source finish_sync finish_with settle store_source keep_pending with_success
    with_counts large_change diff_entries by_id count_added count_missing count_changed
    entries_for_source count_imported is_unsupported entry_changed lookup insert text_eq
synced = refl

known : lookup s manager.sources ≡ some (source s)
unfolding lookup text_eq
known = refl

approve-sync_source_example :
    (src' : Source) × (m' : Manager) × (approve_source s held ≡ done (src', m'))
    × (sync_source s run (unreviewed manager)
        ≡ done (src', record m' { cfg = (unreviewed manager).cfg }))
approve-sync_source_example =
    approve-sync_source s (source s) held_source run (new_entry ∷ []) manager held known refl synced
      refl

-- The administrator deletes the source while it is fetched.
finish_sync-settings_example :
    (kept : Source) × (lookup s (finish_sync s (source s) run (delete_source s manager)).1.sources
      ≡ some kept)
    × SameSettings kept (source s)
finish_sync-settings_example = finish_sync-settings s (source s) run (delete_source s manager)

abbrev empty_run : SyncRun
empty_run = record { result = fetched []; started = 100; ended = 105; next_sync = 900 }

few : length (entries_for_source manager.entries s) < 500
unfolding entries_for_source text_eq
few = omega arith

empty_import-unreviewed_example :
    ((finish_sync s (source s) empty_run manager).0.pending_review ≡ false)
    × ((k : Text)
        → lookup k (finish_sync s (source s) empty_run manager).1.entries
          ≡ unless_owned s (lookup k manager.entries))
empty_import-unreviewed_example =
    empty_import-unreviewed s (source s) empty_run manager refl unique few
