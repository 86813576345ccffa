-- ===== src/Managed/Invariant.antt =====
-- What holds of the manager's state after any sequence of operations. A sync is the step that ends
-- it, with any copy of a source from before its fetch, so that the steps cover all interleavings.
pub mod Sourced
pub mod Imported
pub mod Changes
pub mod Kept
use mirage_chaff.Base.{ℕ, ◌≤◌, ◌≡◌, Bool, true, Option, List, none, some, length}
use mirage_chaff.Base.Text.{Text}
use mirage_chaff.Base.Dict.{Dict, lookup, text_key}
use mirage_chaff.Base.Keys.{HasUniqueKeys}
use mirage_chaff.Managed.Types.{
  Entry, CatalogOverride, Source, ManagedConfig, Ip, Manager, Outcome, done,
}
use mirage_chaff.Managed.Rows.{CatalogRow}
use mirage_chaff.Managed.Overrides.{is_present, max_rollbacks, patch_entry, bulk_patch_entries}
use mirage_chaff.Managed.Overrides.Rollback.{rollback}
use mirage_chaff.Managed.Sources.{upsert_source, delete_source}
use mirage_chaff.Managed.Sync.{SyncRun, finish_sync, approve_source, reject_source}
use mirage_chaff.Managed.Resolve.{resolve_conflict, resolve_conflict_by_priority}
use mirage_chaff.Managed.Settings.{set_config, set_emergency_empty, set_preset}
use mirage_chaff.Managed.Target.{Resolved, refresh_target}
use mirage_chaff.Managed.Generate.{generate}

-- Every entry belongs to a source that is there, and every waiting import too; no id comes twice; and
-- the two histories are bounded.
pub record IsValid (m : Manager) : Type 0 where
  pub unique : HasUniqueKeys m.entries
  pub known :
      (k : Text) (e : Entry)
      → lookup k m.entries ≡ some e
      → is_present (lookup e.source_name m.sources) ≡ true
  pub waiting :
      (id : Text)
      → is_present (lookup id m.pending) ≡ true
      → is_present (lookup id m.sources) ≡ true
  pub few_rollbacks : length m.rollbacks ≤ max_rollbacks
  pub short_history : length m.feed_history ≤ max_rollbacks

pub data Step : Manager → Manager → Type 0 where
  upserts :
      (hash : Text → Text) (s src : Source) (m m' : Manager)
      → upsert_source hash s m ≡ done (src, m')
      → Step m m'
  deletes : (id : Text) (m : Manager) → Step m (delete_source id m)
  syncs :
      (id : Text) (src : Source) (run : SyncRun) (m : Manager) → Step m (finish_sync id src run m).1
  approves :
      (id : Text) (src : Source) (m m' : Manager) → approve_source id m ≡ done (src, m') → Step m m'
  rejects :
      (id : Text) (src : Source) (m m' : Manager) → reject_source id m ≡ done (src, m') → Step m m'
  patches :
      (rb : Text × ℕ) (id : Text) (ov : CatalogOverride) (by : List Text) (row : CatalogRow)
      (m m' : Manager)
      → patch_entry rb id ov by m ≡ done (row, m')
      → Step m m'
  bulk_patches :
      (rb : Text × ℕ) (summary : Text) (ids : List Text) (ov : CatalogOverride) (by : List Text)
      (rows : List CatalogRow) (m m' : Manager)
      → bulk_patch_entries rb summary ids ov by m ≡ done (rows, m')
      → Step m m'
  resolves :
      (hash : Text → Text) (rb : Text × ℕ) (id : Text) (ov : CatalogOverride) (by : List Text)
      (row : CatalogRow) (m m' : Manager)
      → resolve_conflict hash rb id ov by m ≡ done (row, m')
      → Step m m'
  resolves_by_priority :
      (hash : Text → Text) (rb : Text × ℕ) (summary : CatalogRow → Text) (id : Text)
      (by : List Text) (rows : List CatalogRow) (m m' : Manager)
      → resolve_conflict_by_priority hash rb summary id by m ≡ done (rows, m')
      → Step m m'
  rolls_back :
      (id : Text) (rows : List CatalogRow) (m m' : Manager)
      → rollback id m ≡ done (rows, m')
      → Step m m'
  configures : (cfg : ManagedConfig) (m : Manager) → Step m (set_config cfg m)
  sets_emergency : (on : Bool) (m : Manager) → Step m (set_emergency_empty on m)
  sets_preset : (p : Text) (m m' : Manager) → set_preset p m ≡ done m' → Step m m'
  refreshes :
      (now : ℕ) (answer : Option Resolved) (m : Manager) → Step m (refresh_target now answer m)
  generates :
      (parse_ip : Text → Option Ip) (hash : Text → Text) (now : ℕ) (answer : Option Resolved)
      (recorded : Bool) (m : Manager)
      → Step m (generate parse_ip hash now answer recorded m).1

pub data Reach (s : Manager) : Manager → Type 0 where
  here : Reach s s
  next : {m m' : Manager} → Reach s m → Step m m' → Reach s m'
