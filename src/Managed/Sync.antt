-- ===== src/Managed/Sync.antt =====
-- internal/aghmanaged/manager.go: the import of a source's rules, and its review. What `fetchSource`
-- returns, the clock's readings and the time of the next sync are arguments. A sync holds no lock
-- while it fetches: `finish_sync` takes the copy of the source from before the fetch and the state
-- from after.
pub mod Review
pub mod Overwrites
pub mod Effects
use mirage_chaff.Base.{
  ℕ, ◌+◌, Bool, false, ◌&&◌, ◌||◌, List, [], ◌∷◌, none, some, leb, ◌==◌, if◌then◌else◌,
}
use mirage_chaff.Base.Text.{Text}
use mirage_chaff.Base.Dict.{lookup, insert, delete, text_key}
use mirage_chaff.Managed.Types.{Entry, Source, Manager, Outcome, refused, done, not_exist}
use mirage_chaff.Managed.Sources.{list_sources}
use mirage_chaff.Managed.Imports.{with_counts, large_change, apply_entries}

pub data Fetched : Type 0 where
  failed : Text → Fetched
  fetched : List Entry → Fetched

-- One sync: what the fetch gave, when it started and ended, and when the next one is due.
pub record SyncRun : Type 0 where
  pub result : Fetched
  pub started : ℕ
  pub ended : ℕ
  pub next_sync : ℕ

-- The source after a failed fetch.
unfoldable pub with_failure : Text → SyncRun → Source → Source
with_failure message run src = record src {
  last_sync_started = run.started;
  last_error = message;
  consecutive_fails = src.consecutive_fails + 1;
  next_sync = run.next_sync;
}

-- The source after a fetch, its counts and its review still open.
unfoldable pub with_success : SyncRun → Source → Source
with_success run src = record src {
  last_sync_started = run.started;
  last_error = [];
  last_success = run.ended;
  consecutive_fails = 0;
  next_sync = run.next_sync;
}

unfoldable pub store_source : Text → Source → Manager → Manager
store_source id src m = record m { sources = insert id src m.sources }

unfoldable pub accept_import : Text → List Entry → Manager → Manager
accept_import id entries m =
    let applied = apply_entries id entries m in
    record applied { pending = delete id applied.pending }

unfoldable pub keep_pending : Text → List Entry → Manager → Manager
keep_pending id entries m = record m { pending = insert id entries m.pending }

-- The source and the state once the review is decided.
unfoldable pub settle : Bool → Text → Source → List Entry → Manager → Source × Manager
settle review id counted entries m =
    let src = record counted { pending_review = review } in
    let stored = store_source id src m in
    (src, if review then keep_pending id entries stored else accept_import id entries stored)

unfoldable pub finish_with : Fetched → Text → Source → SyncRun → Manager → Source × Manager
finish_with (failed message) id src run m =
    let src' = with_failure message run src in (src', store_source id src' m)
finish_with (fetched entries) id src run m =
    let counted = with_counts id m.entries entries (with_success run src) in
    settle (large_change counted m.cfg.scheduler) id counted entries m

-- The part of `SyncSource` behind the fetch. A failure is returned as the source's last error.
unfoldable pub finish_sync : Text → Source → SyncRun → Manager → Source × Manager
finish_sync id src run m = finish_with run.result id src run m

-- `SyncSource` where nothing else happens during the fetch.
unfoldable pub sync_source : Text → SyncRun → Manager → Outcome (Source × Manager)
sync_source id run m = elim (lookup id m.sources) [
  | none ↦ refused not_exist
  | some src ↦ done (finish_sync id src run m)
]

unfoldable pub approve_source : Text → Manager → Outcome (Source × Manager)
approve_source id m = elim (lookup id m.sources) [
  | none ↦ refused not_exist
  | some src ↦ elim (lookup id m.pending) [
    | none ↦ refused not_exist
    | some entries ↦
        let src' = record (with_counts id m.entries entries src) { pending_review = false } in
        done (src', store_source id src' (accept_import id entries m))
  ]
]

unfoldable pub reject_source : Text → Manager → Outcome (Source × Manager)
reject_source id m = elim (lookup id m.sources) [
  | none ↦ refused not_exist
  | some src ↦ elim (lookup id m.pending) [
    | none ↦ refused not_exist
    | some entries ↦
        let src' = record src { pending_review = false } in
        done (src', store_source id src' (record m { pending = delete id m.pending }))
  ]
]

-- Whether `SyncDue` takes a source.
unfoldable pub is_due : ℕ → Source → Bool
is_due now src = src.enabled && (src.next_sync == 0 || leb src.next_sync now)

unfoldable pub due_ids : ℕ → List Source → List Text
due_ids now [] = []
due_ids now (src ∷ srcs) = if is_due now src then src.id ∷ due_ids now srcs else due_ids now srcs

-- The loop over the due sources, one after the other; a sync's error does not end it.
unfoldable pub sync_all : (Text → SyncRun) → List Text → Manager → Manager
sync_all runs [] m = m
sync_all runs (id ∷ ids) m = elim (sync_source id (runs id) m) [
  | refused p ↦ sync_all runs ids m
  | done (src, m') ↦ sync_all runs ids m'
]

-- `SyncDue` without parallel syncs.
unfoldable pub sync_due : ℕ → (Text → SyncRun) → Manager → Manager
sync_due now runs m =
    if m.cfg.scheduler.enabled then sync_all runs (due_ids now (list_sources m)) m else m
