-- ===== src/Managed/Sync/Review.antt =====
-- An import that is held for review, and the administrator's answer.
use mirage_chaff.Base.{◌≡◌, refl, sym, ap, subst, true, false, List, none, some, ◌∙◌}
use mirage_chaff.Base.Text.{Text}
use mirage_chaff.Base.Dict.{
  lookup, insert, delete, lookup-insert_self, lookup-delete, beq_refl, text_key,
}
use mirage_chaff.Base.Keys.{insert-insert, delete-insert}
use mirage_chaff.Managed.Types.{Entry, Source, Manager, done}
use mirage_chaff.Managed.Imports.{large_change, with_counts, apply_entries}
use mirage_chaff.Managed.Sync.{
  fetched, SyncRun, with_success, store_source, keep_pending, accept_import, settle, finish_with,
  finish_sync, sync_source, approve_source, reject_source,
}

-- The state under a configuration that asks for no review.
abbrev pub unreviewed : Manager → Manager
unreviewed m =
    let cfg = m.cfg in
    let scheduler = cfg.scheduler in
    record m {
      cfg = record cfg { scheduler = record scheduler { large_change_requires_review = false } };
    }

approve_found :
    (id : Text) (m : Manager) (s : Source) (es : List Entry)
    → lookup id m.sources ≡ some s
    → lookup id m.pending ≡ some es
    → approve_source id m ≡ (
        let src' = record (with_counts id m.entries es s) { pending_review = false } in
        done (src', store_source id src' (accept_import id es m)))
unfolding approve_source
approve_found id m s es e q = rw (e, approve_source, q)

reject_found :
    (id : Text) (m : Manager) (s : Source) (es : List Entry)
    → lookup id m.sources ≡ some s
    → lookup id m.pending ≡ some es
    → reject_source id m ≡ (
        let src' = record s { pending_review = false } in
        done (src', store_source id src' (record m { pending = delete id m.pending })))
unfolding reject_source
reject_found id m s es e q = rw (e, reject_source, q)

sync_found :
    (id : Text) (run : SyncRun) (m : Manager) (s : Source)
    → lookup id m.sources ≡ some s
    → sync_source id run m ≡ done (finish_sync id s run m)
unfolding sync_source
sync_found id run m s e = rw (e, sync_source)

pub finish_fetched :
    (id : Text) (src : Source) (run : SyncRun) (es : List Entry) (m : Manager)
    → run.result ≡ fetched es
    → (let counted = with_counts id m.entries es (with_success run src) in
        finish_sync id src run m ≡ settle (large_change counted m.cfg.scheduler) id counted es m)
unfolding finish_sync
finish_fetched id src run es m e =
    ap (λ result. finish_with result id src run m) e ∙ unfold finish_with in refl

module _ (id : Text) (src : Source) (es : List Entry) (m : Manager) where
  -- The state with the import held.
  abbrev held : Manager
  unfolding settle store_source keep_pending
  held = (settle true id src es m).1

  approved-settle :
      let src' = record src { pending_review = false } in
      (settle false id src es (unreviewed m)).1
      ≡ record (store_source id src' (accept_import id es held)) { cfg = (unreviewed m).cfg }
  unfolding held settle store_source accept_import apply_entries
  approved-settle = rw (
    insert-insert id (record src { pending_review = false }) (record src { pending_review = true })
        m.sources,
    delete-insert id es m.pending,
  )

module _ (id : Text) (src held_src : Source) (run : SyncRun) (es : List Entry) (m held_m : Manager)
    (known : lookup id m.sources ≡ some src) (fetch : run.result ≡ fetched es)
    (synced : sync_source id run m ≡ done (held_src, held_m))
    (open_review : held_src.pending_review ≡ true) where
  abbrev counted : Source
  counted = with_counts id m.entries es (with_success run src)

  held_pair : settle true id counted es m ≡ (held_src, held_m)
  unfolding settle
  held_pair =
      let r = settle (large_change counted m.cfg.scheduler) id counted es m in
      let same : r ≡ (held_src, held_m) =
        cc (sync_found id run m src known, finish_fetched id src run es m fetch, synced) in
      let large : large_change counted m.cfg.scheduler ≡ true =
        ap (λ (x : Source × Manager). x.0.pending_review) same ∙ open_review in
      ap (λ b. settle b id counted es m) (sym large) ∙ same

  abbrev approved_src : Source
  approved_src = record counted { pending_review = false }

  -- Approving an import that a sync held for review gives the source, and but for its
  -- configuration the whole state, that the sync itself would have given had the configuration
  -- asked for no review.
  pub approve-sync_source :
      (src' : Source) × (m' : Manager) × (approve_source id held_m ≡ done (src', m'))
      × (sync_source id run (unreviewed m) ≡ done (src', record m' { cfg = (unreviewed m).cfg }))
  unfolding settle held large_change with_counts store_source keep_pending
  approve-sync_source =
      subst
        (λ (x : Source × Manager).
          (src' : Source) × (m' : Manager) × (approve_source id x.1 ≡ done (src', m'))
          × (sync_source id run (unreviewed m)
              ≡ done (src', record m' { cfg = (unreviewed m).cfg })))
        held_pair
        (
          approved_src,
          store_source id approved_src (accept_import id es (settle true id counted es m).1),
          approve_found id (settle true id counted es m).1 (settle true id counted es m).0 es
              (lookup-insert_self id (settle true id counted es m).0 m.sources)
              (lookup-insert_self id es m.pending),
          sync_found id run (unreviewed m) src known
              ∙ ap done (
                  finish_fetched id src run es (unreviewed m) fetch
                  ∙ ap (λ x. (approved_src, x)) (approved-settle id counted es m)),
        )

  -- Rejecting an import that a sync held for review leaves the entries, the overrides and the feed
  -- times as they were before the sync, and neither a waiting list nor an open review.
  pub reject-sync_source :
      (src' : Source) × (m' : Manager) × (reject_source id held_m ≡ done (src', m'))
      × (m'.entries ≡ m.entries)
      × (m'.overrides ≡ m.overrides)
      × (m'.feed_seen ≡ m.feed_seen)
      × (lookup id m'.pending ≡ none)
      × (lookup id m'.sources ≡ some src')
      × (src'.pending_review ≡ false)
  unfolding settle store_source keep_pending
  reject-sync_source =
      subst
        (λ (x : Source × Manager).
          (src' : Source) × (m' : Manager) × (reject_source id x.1 ≡ done (src', m'))
          × (m'.entries ≡ m.entries)
          × (m'.overrides ≡ m.overrides)
          × (m'.feed_seen ≡ m.feed_seen)
          × (lookup id m'.pending ≡ none)
          × (lookup id m'.sources ≡ some src')
          × (src'.pending_review ≡ false))
        held_pair
        (
          approved_src,
          store_source id approved_src (
              let h = (settle true id counted es m).1 in
              record h { pending = delete id h.pending }),
          reject_found id (settle true id counted es m).1 (settle true id counted es m).0 es
              (lookup-insert_self id (settle true id counted es m).0 m.sources)
              (lookup-insert_self id es m.pending),
          refl,
          refl,
          refl,
          rw (lookup-delete id id (insert id es m.pending), beq_refl id),
          lookup-insert_self id approved_src (insert id (settle true id counted es m).0 m.sources),
          refl,
        )
