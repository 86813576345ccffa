-- ===== src/Managed/Sync/Effects.antt =====
-- What a sync does to the catalog, on every branch.
use mirage_chaff.Base.{◌≡◌, refl, Bool, true, false, List, [], Option, none, some, if◌then◌else◌}
use mirage_chaff.Base.Text.{Text}
use mirage_chaff.Base.Dict.{lookup, lookup-delete, lookup-insert_self, beq_refl, text_key}
use mirage_chaff.Base.Keys.{HasUniqueKeys}
use mirage_chaff.Managed.Types.{Entry, Source, Manager}
use mirage_chaff.Managed.Overrides.{newer}
use mirage_chaff.Managed.Imports.{put_entries, apply_entries, large_change, with_counts}
use mirage_chaff.Managed.Imports.Applied.{unless_owned, apply_entries-lookup}
use mirage_chaff.Managed.Sync.{
  Fetched, failed, fetched, SyncRun, with_success, store_source, keep_pending, accept_import,
  settle, finish_with, finish_sync,
}

-- One entry after a sync: as before while a review is open, the imported one if the list has it, and
-- otherwise what was there unless it was the source's.
abbrev pub entry_after : Text → Text → Fetched → Bool → Option Entry → Option Entry
entry_after id k (failed message) review old = old
entry_after id k (fetched es) review old =
    if review then old else newer (lookup k (put_entries id es [])) (unless_owned id old)

abbrev pub pending_after : Fetched → Bool → Option (List Entry) → Option (List Entry)
pending_after (failed message) review old = old
pending_after (fetched es) review old = if review then some es else none

abbrev pub After : Text → Fetched → Manager → Source × Manager → Type 0
After id result m r =
    ((k : Text)
      → lookup k r.1.entries ≡ entry_after id k result r.0.pending_review (lookup k m.entries))
    × (lookup id r.1.pending ≡ pending_after result r.0.pending_review (lookup id m.pending))
    × (r.1.overrides ≡ m.overrides)

settle-After :
    (review : Bool) (id : Text) (src : Source) (es : List Entry) (m : Manager)
    → HasUniqueKeys m.entries
    → After id (fetched es) m (settle review id src es m)
unfolding settle keep_pending accept_import store_source apply_entries
settle-After true id src es m u = (λ k. refl, lookup-insert_self id es m.pending, refl)
settle-After false id src es m u =
    let stored = store_source id (record src { pending_review = false }) m in
    (
      λ k. apply_entries-lookup id k es stored u,
      rw (lookup-delete id id m.pending, beq_refl id),
      refl,
    )

finish_with-After :
    (result : Fetched) (id : Text) (src : Source) (run : SyncRun) (m : Manager)
    → HasUniqueKeys m.entries
    → After id result m (finish_with result id src run m)
unfolding finish_with store_source
finish_with-After (failed message) id src run m u = (λ k. refl, refl, refl)
finish_with-After (fetched es) id src run m u =
    let counted = with_counts id m.entries es (with_success run src) in
    settle-After (large_change counted m.cfg.scheduler) id counted es m u

-- After a sync, whatever happened during its fetch: a failed fetch changes no entry. Where the change
-- is held for review the catalog stays and the list waits. Otherwise each entry is the imported one
-- where the list has its id, gone where it was the source's, as it was in all other cases, and
-- nothing of the source waits. Overrides stay.
pub finish_sync-After :
    (id : Text) (src : Source) (run : SyncRun) (m : Manager)
    → HasUniqueKeys m.entries
    → After id run.result m (finish_sync id src run m)
unfolding finish_sync
finish_sync-After id src run m u = finish_with-After run.result id src run m u
