-- ===== src/Managed/Generate.antt =====
-- internal/aghmanaged/manager.go: the generation of the rewrite feed. The clock is read once. The feed
-- is the list of its lines; the header's lines with the time and the target are left out, and so are
-- those parts of the status that only repeat the configuration.
pub mod Frame
pub mod Counts
pub mod Emergency
use mirage_chaff.Base.{
  ℕ, ◌+◌, ◌-◌, Bool, true, false, not, ◌&&◌, ◌||◌, List, [], ◌∷◌, ◌++◌, map, Option, none, some,
  length, max, if◌then◌else◌,
}
use mirage_chaff.Base.Text.{Text}
use mirage_chaff.Base.Sort.{sort_by}
use mirage_chaff.Base.Dict.{Dict, text_key}
use mirage_chaff.Managed.Types.{Entry, Source, ManagedConfig, Ip, Manager}
use mirage_chaff.Managed.Rows.{effective_config, nonempty}
use mirage_chaff.Managed.Overrides.{newest, unique_strings}
use mirage_chaff.Managed.Conflicts.{build_conflicts, applied_entries, conflict_keys}
use mirage_chaff.Managed.Feed.{FeedItem, resolved_ip}
use mirage_chaff.Managed.Items.{
  feed_snapshot_delta, feed_snapshot_from_ids, entry_less, from_stale, item_for, body_of,
  included_ids, mark_seen,
}
use mirage_chaff.Managed.Settings.{set_emergency_empty}
use mirage_chaff.Managed.Target.{Target, Resolved, resolves, no_ips, choose_target}

pub record FeedStatus : Type 0 where
  pub target_mode : Text
  pub target_error : Text
  pub target_cache_used : Bool
  pub item_count : ℕ
  pub excluded_count : ℕ
  pub conflict_count : ℕ
  pub emergency_empty : Bool
  pub sources : ℕ
  pub pending_sources : ℕ
  pub stale_sources : ℕ
  pub last_source_sync : ℕ

pub record Preview : Type 0 where
  pub status : FeedStatus
  pub items : List FeedItem
  pub body : List Text
  pub failure : Option Text

-- `seen` is the new map of feed times, none where it stays.
unfoldable pub persist_generation :
    FeedStatus → Option (Dict Text ℕ) → List Text → ℕ → Manager → Manager
persist_generation status seen ids now m =
    let delta = feed_snapshot_delta m.feed_snapshot ids in
    record m {
      last_generated = now;
      feed_seen = elim seen [ none ↦ m.feed_seen | some d ↦ d ];
      feed_snapshot = feed_snapshot_from_ids ids;
      feed_history = newest (
          m.feed_history
          ++ record {
            time = now;
            included_count = status.item_count;
            excluded_count = status.excluded_count;
            added_count = delta.0;
            removed_count = delta.1;
            conflict_count = status.conflict_count;
            target_mode = status.target_mode;
            emergency_empty = status.emergency_empty;
          }
            ∷ []);
    }

-- The sources that wait for a review, and the latest successful sync of any.
unfoldable pub count_pending : Dict Text Source → ℕ
count_pending [] = 0
count_pending ((id, src) ∷ srcs) = (if src.pending_review then 1 else 0) + count_pending srcs

unfoldable pub latest_sync : Dict Text Source → ℕ
latest_sync [] = 0
latest_sync ((id, src) ∷ srcs) = max src.last_success (latest_sync srcs)

-- The names of the stale sources of the entries.
unfoldable pub stale_names : ℕ → Manager → List Entry → List Text
stale_names now m [] = []
stale_names now m (e ∷ es) = elim (from_stale now m e) [
  | none ↦ stale_names now m es
  | some src ↦ src.id ∷ stale_names now m es
]

-- The status before any item.
unfoldable pub first_status : ManagedConfig → Target → ℕ → ℕ → FeedStatus
first_status cfg t conflicts sources = record {
  target_mode = nonempty cfg.target_mode resolved_ip;
  target_error = t.error;
  target_cache_used = t.cache_used;
  item_count = 0;
  excluded_count = 0;
  conflict_count = conflicts;
  emergency_empty = cfg.emergency_empty;
  sources = sources;
  pending_sources = 0;
  stale_sources = 0;
  last_source_sync = 0;
}

-- Whether the generation empties the feed because there is no target.
unfoldable pub auto_emergency : ManagedConfig → Target → Bool → Bool
auto_emergency cfg t record_history =
    resolves cfg && no_ips t.ips && cfg.auto_emergency_empty_on_target_failure && record_history

-- The empty feed.
unfoldable pub generate_empty : FeedStatus → List Entry → ℕ → Bool → Manager → Preview × Manager
generate_empty status entries now record_history m =
    let counted = record status { excluded_count = length entries } in
    (
      record { status = counted; items = []; body = []; failure = none },
      if record_history then persist_generation counted none [] now m else m,
    )

-- The feed of the items.
unfoldable pub generate_items :
    (Text → Option Ip)
    → FeedStatus
    → ManagedConfig
    → List Ip
    → List Text
    → List Entry
    → ℕ
    → Bool
    → Manager
    → Preview × Manager
generate_items parse_ip status cfg ips keys entries now record_history m =
    let sorted = sort_by entry_less entries in
    let items = map (item_for parse_ip now cfg ips keys m) sorted in
    let ids = included_ids items in
    let counted = record status {
      item_count = length ids;
      excluded_count = length items - length ids;
      pending_sources = count_pending m.sources;
      last_source_sync = latest_sync m.sources;
      stale_sources = length (unique_strings (stale_names now m sorted));
    } in
    (
      record { status = counted; items = items; body = body_of items; failure = none },
      if record_history
          then persist_generation counted (some (mark_seen now ids m.feed_seen)) ids now m
          else record m { last_generated = now },
    )

-- The three ways in which a generation ends: an empty feed, no target, and a feed of items.
unfoldable pub make_feed :
    Bool
    → Bool
    → (Text → Option Ip)
    → FeedStatus
    → ManagedConfig
    → Target
    → List Text
    → List Entry
    → ℕ
    → Bool
    → Manager
    → Preview × Manager
make_feed true no_target parse_ip status cfg t keys entries now record_history m =
    generate_empty status entries now record_history m
make_feed false true parse_ip status cfg t keys entries now record_history m =
    (record { status = status; items = []; body = []; failure = some t.error }, m)
make_feed false false parse_ip status cfg t keys entries now record_history m =
    generate_items parse_ip status cfg t.ips keys entries now record_history m

-- `cfg` is the configuration with the preset in force, `t` the target.
unfoldable pub generate_with :
    (Text → Option Ip)
    → (Text → Text)
    → ManagedConfig
    → Target
    → ℕ
    → Bool
    → Manager
    → Preview × Manager
generate_with parse_ip hash cfg t now record_history m =
    let entries = applied_entries m.overrides m.entries in
    let conflicts = build_conflicts hash entries m.overrides cfg m.sources in
    let auto = auto_emergency cfg t record_history in
    let emergency = auto || cfg.emergency_empty in
    let cfg' = record cfg { emergency_empty = emergency } in
    let m' =
      if auto then set_emergency_empty true (record m { last_resolve_err = t.error }) else m in
    make_feed (emergency || not cfg.enabled) (resolves cfg && no_ips t.ips) parse_ip
      (first_status cfg' t (length conflicts) (length m.sources)) cfg' t (conflict_keys conflicts)
      entries now record_history m'

-- The part of `generate` that makes the feed, less the catalog's rows. A feed that is served is
-- recorded in the history; the administrator's preview is not.
unfoldable pub generate :
    (Text → Option Ip) → (Text → Text) → ℕ → Option Resolved → Bool → Manager → Preview × Manager
generate parse_ip hash now answer record_history m =
    let chosen = choose_target now answer m in
    generate_with parse_ip hash (effective_config m) chosen.0 now record_history chosen.1
