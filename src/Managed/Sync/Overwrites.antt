-- ===== src/Managed/Sync/Overwrites.antt =====
-- What a sync overwrites: the changes that the administrator makes during its fetch, and a source
-- whose list has become empty.
use mirage_chaff.Base.{
  ◌+◌, ◌≤◌, ◌<◌, ◌≡◌, refl, ap, ap₂, Bool, true, false, List, [], ◌∷◌, some, length, Option-cases,
  inl, inr, arith, ◌∙◌,
}
use mirage_chaff.Base.Text.{Text}
use mirage_chaff.Base.Dict.{Dict, lookup, insert, length-insert_le, lookup-insert_self, text_key}
use mirage_chaff.Base.Keys.{HasUniqueKeys}
use mirage_chaff.Managed.Types.{Entry, Source, Manager}
use mirage_chaff.Managed.Overrides.{newer}
use mirage_chaff.Managed.Imports.{
  by_id, count_missing, count_changed, diff_entries, entries_for_source, large_change, with_counts,
  put_entries, apply_entries,
}
use mirage_chaff.Managed.Imports.Applied.{unless_owned}
use mirage_chaff.Managed.Sync.{
  Fetched, failed, fetched, SyncRun, with_failure, with_success, store_source, keep_pending,
  accept_import, settle, finish_with, finish_sync,
}
use mirage_chaff.Managed.Sync.Effects.{entry_after, finish_sync-After}
use mirage_chaff.Managed.Sync.Review.{finish_fetched}

-- The settings that the administrator gives a source.
abbrev pub SameSettings : Source → Source → Type 0
SameSettings a b =
    (a.kind ≡ b.kind)
    × (a.name ≡ b.name)
    × (a.url ≡ b.url)
    × (a.content ≡ b.content)
    × (a.enabled ≡ b.enabled)
    × (a.sync_interval ≡ b.sync_interval)
    × (a.priority ≡ b.priority)
    × (a.stale_feed_policy ≡ b.stale_feed_policy)

settle-settings :
    (review : Bool) (id : Text) (src : Source) (es : List Entry) (m : Manager)
    → lookup id (settle review id src es m).1.sources
      ≡ some (record src { pending_review = review })
unfolding settle store_source keep_pending accept_import apply_entries
settle-settings true id src es m =
    lookup-insert_self id (record src { pending_review = true }) m.sources
settle-settings false id src es m =
    lookup-insert_self id (record src { pending_review = false }) m.sources

finish_with-settings :
    (result : Fetched) (id : Text) (src : Source) (run : SyncRun) (m : Manager)
    → (kept : Source) × (lookup id (finish_with result id src run m).1.sources ≡ some kept)
      × SameSettings kept src
unfolding finish_with store_source with_failure with_success with_counts
finish_with-settings (failed message) id src run m =
    let kept = with_failure message run src in
    (kept, lookup-insert_self id kept m.sources, (refl, refl, refl, refl, refl, refl, refl, refl))
finish_with-settings (fetched es) id src run m =
    let counted = with_counts id m.entries es (with_success run src) in
    let review = large_change counted m.cfg.scheduler in
    (
      record counted { pending_review = review },
      settle-settings review id counted es m,
      (refl, refl, refl, refl, refl, refl, refl, refl),
    )

-- A sync that ends leaves the source stored with the settings from before its fetch, whatever state
-- it finds: a source that was deleted or changed during the fetch is back as it was.
pub finish_sync-settings :
    (id : Text) (src : Source) (run : SyncRun) (m : Manager)
    → (kept : Source) × (lookup id (finish_sync id src run m).1.sources ≡ some kept)
      × SameSettings kept src
unfolding finish_sync
finish_sync-settings id src run m = finish_with-settings run.result id src run m

count_missing-le : (n p : Dict Text Entry) → count_missing n p ≤ length p
unfolding count_missing
count_missing-le n [] = omega arith
count_missing-le n ((id, e) ∷ p) = elim (Option-cases (lookup id n)) [
  | inl q ↦ rw q (omega (arith, count_missing-le n p))
  | inr (v, q) ↦ rw q (omega (arith, count_missing-le n p))
]

length-by_id : (es : List Entry) (d : Dict Text Entry) → length (by_id es d) ≤ length es + length d
unfolding by_id
length-by_id [] d = omega arith
length-by_id (e ∷ es) d =
    omega (arith, length-by_id es (insert e.id e d), length-insert_le e.id e d)

empty-large_change :
    (id : Text) (src : Source) (m : Manager)
    → length (entries_for_source m.entries id) < m.cfg.scheduler.large_change_threshold_count
    → large_change (with_counts id m.entries [] src) m.cfg.scheduler ≡ false
unfolding large_change with_counts diff_entries count_changed
empty-large_change id src m h =
    let prev = entries_for_source m.entries id in
    let p = by_id prev [] in ground (arith, count_missing-le (by_id [] []) p, length-by_id prev [])

-- A fetch that brings an empty list removes every entry of a source that has fewer entries than the
-- threshold count, and this without a review, whatever the threshold percentage.
pub empty_import-unreviewed :
    (id : Text) (src : Source) (run : SyncRun) (m : Manager)
    → run.result ≡ fetched []
    → HasUniqueKeys m.entries
    → length (entries_for_source m.entries id) < m.cfg.scheduler.large_change_threshold_count
    → ((finish_sync id src run m).0.pending_review ≡ false)
      × ((k : Text)
          → lookup k (finish_sync id src run m).1.entries ≡ unless_owned id (lookup k m.entries))
unfolding settle put_entries newer lookup
empty_import-unreviewed id src run m e u h =
    let counted = with_counts id m.entries [] (with_success run src) in
    let small = empty-large_change id (with_success run src) m h in
    let settled = finish_fetched id src run [] m e ∙ ap (λ b. settle b id counted [] m) small in
    let reviewed = ap (λ (x : Source × Manager). x.0.pending_review) settled in
    (
      reviewed,
      λ k.
          (finish_sync-After id src run m u).0 k
          ∙ ap₂ (λ result b. entry_after id k result b (lookup k m.entries)) e reviewed,
    )
