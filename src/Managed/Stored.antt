-- ===== src/Managed/Stored.antt =====
-- internal/aghmanaged/manager.go: the file that keeps the manager's state. `encoding/json` is left out: the
-- file is missing, cannot be read, holds no document of the state, or one.
pub mod Again
pub mod RoundTrip
use mirage_chaff.Base.{Bool, true, List, [], ◌∷◌, Option, none, some, map}
use mirage_chaff.Base.Text.{Text}
use mirage_chaff.Base.Dict.{Dict, insert, text_key}
use mirage_chaff.Base.Sort.{sort_by, text_lt}
use mirage_chaff.Managed.Types.{
  Entry, Source, CatalogOverride, RollbackRecord, FeedGenerationRecord, ManagedConfig, Manager,
  or_else,
}
use mirage_chaff.Managed.Settings.{new_manager}
use mirage_chaff.Base.{ℕ}

-- `state`. A field that is `omitempty` and empty is left out of the document, and an absent one is nil,
-- which reads as an empty one.
pub record State : Type 0 where
  pub sources : List Source
  pub entries : List Entry
  pub pending : Dict Text (List Entry)
  pub overrides : Dict Text CatalogOverride
  pub emergency_empty : Option Bool
  pub preset_override : Text
  pub rollbacks : List RollbackRecord
  pub feed_included_at_by_id : Dict Text ℕ
  pub feed_history : List FeedGenerationRecord
  pub feed_snapshot_ids : List Text

pub data StateFile : Type 0 where
  missing : StateFile
  unreadable : StateFile
  no_bytes : StateFile
  malformed : StateFile
  stored : State → StateFile

unfoldable pub values_of {ℓ} : {V : Type ℓ} → Dict Text V → List V
values_of [] = []
values_of ((k, v) ∷ m) = v ∷ values_of m

unfoldable pub copy_state : Manager → State
copy_state m = record {
  sources = sort_by (λ (a b : Source). text_lt a.id b.id) (values_of m.sources);
  entries = sort_by (λ (a b : Entry). text_lt a.id b.id) (values_of m.entries);
  pending = m.pending;
  overrides = m.overrides;
  emergency_empty = some m.cfg.emergency_empty;
  preset_override = m.preset;
  rollbacks = m.rollbacks;
  feed_included_at_by_id = m.feed_seen;
  feed_history = m.feed_history;
  feed_snapshot_ids = sort_by text_lt m.feed_snapshot;
}

-- `for _, x := range xs { m[x.ID] = x }`
unfoldable pub index_into {ℓ} : {A : Type ℓ} → (A → Text) → List A → Dict Text A → Dict Text A
index_into id [] m = m
index_into id (x ∷ xs) m = index_into id xs (insert (id x) x m)

-- `m.feedSnapshot[id] = true` for each of them, on the set's list.
unfoldable pub restore_snapshot : List Text → Dict Text Bool → Dict Text Bool
restore_snapshot [] m = m
restore_snapshot (id ∷ ids) m = restore_snapshot ids (insert id true m)

unfoldable pub keys_of {ℓ} : {V : Type ℓ} → Dict Text V → List Text
keys_of [] = []
keys_of ((k, v) ∷ m) = k ∷ keys_of m

unfoldable pub restore : State → Manager → Manager
restore st m = record m {
  cfg = record m.cfg { emergency_empty = or_else st.emergency_empty m.cfg.emergency_empty };
  sources = index_into (λ (s : Source). s.id) st.sources m.sources;
  entries = index_into (λ (e : Entry). e.id) st.entries m.entries;
  pending = st.pending;
  overrides = st.overrides;
  preset = st.preset_override;
  rollbacks = st.rollbacks;
  feed_seen = st.feed_included_at_by_id;
  feed_history = st.feed_history;
  feed_snapshot = keys_of (restore_snapshot st.feed_snapshot_ids []);
}

-- `Open`
unfoldable pub open_manager : ManagedConfig → StateFile → Option Manager
open_manager cfg missing = some (new_manager cfg)
open_manager cfg unreadable = none
open_manager cfg no_bytes = some (new_manager cfg)
open_manager cfg malformed = none
open_manager cfg (stored st) = some (restore st (new_manager cfg))
