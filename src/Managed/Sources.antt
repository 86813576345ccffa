-- ===== src/Managed/Sources.antt =====
-- internal/aghmanaged/manager.go: the sources, as the administrator adds and removes them. The hash
-- of a new source's id is a parameter. Durations are read from the configuration as nanoseconds; a
-- negative one acts as 0.
pub mod Deleted
use mirage_chaff.Base.{
  ℕ, ◌-◌, Bool, not, ◌&&◌, ◌||◌, List, [], ◌∷◌, ◌++◌, map, Option, none, some, ltb, ◌==◌,
  if◌then◌else◌,
}
use mirage_chaff.Base.Text.{Text, text_eq, codes}
use mirage_chaff.Base.Dict.{Dict, lookup, insert, delete, text_key}
use mirage_chaff.Base.Sort.{sort_by, text_lt}
use mirage_chaff.Managed.Types.{
  Entry, Source, Scheduler, Manager, Outcome, Problem, refused, done, invalid_source_type,
  invalid_stale_feed_policy, url_required, base_url_required, content_required,
}
use mirage_chaff.Managed.Rows.{nonempty}

abbrev pub filter_url : Text
filter_url = codes "filter_url"

abbrev pub manual : Text
manual = codes "manual"

abbrev pub agh_custom_rules : Text
agh_custom_rules = codes "agh_custom_rules"

abbrev pub agh_query_log_cname : Text
agh_query_log_cname = codes "agh_query_log_cname"

abbrev pub policy_exclude : Text
policy_exclude = codes "exclude"

abbrev pub policy_keep : Text
policy_keep = codes "keep"

unfoldable pub is_remote_source : Text → Bool
is_remote_source kind =
    text_eq kind filter_url || text_eq kind agh_custom_rules || text_eq kind agh_query_log_cname

unfoldable pub valid_source_type : Text → Bool
valid_source_type kind =
    text_eq kind filter_url
    || text_eq kind manual
    || text_eq kind agh_custom_rules
    || text_eq kind agh_query_log_cname

unfoldable pub valid_stale_feed_policy : Text → Bool
valid_stale_feed_policy policy = text_eq policy policy_exclude || text_eq policy policy_keep

unfoldable pub is_stale_source : ℕ → Source → ℕ → Bool
is_stale_source now src ttl =
    ltb 0 ttl
    && is_remote_source src.kind
    && not (src.last_success == 0)
    && ltb ttl (now - src.last_success)

unfoldable pub stale_feed_policy : Source → Text
stale_feed_policy src = nonempty src.stale_feed_policy policy_exclude

unfoldable pub source_health : ℕ → Scheduler → Source → Text
source_health now cfg src =
    if not src.enabled
    then codes "paused"
    else if src.pending_review
    then codes "pending"
    else if is_remote_source src.kind && is_stale_source now src cfg.stale_source_ttl
    then codes "stale"
    else if not (text_eq src.last_error [])
    then codes "failing"
    else if src.last_success == 0
    then codes "never synced"
    else codes "healthy"

abbrev name_less : Source → Source → Bool
name_less a b = text_lt a.name b.name

abbrev values {ℓ} : {A : Type ℓ} → Dict Text A → List A
values d = map (λ (kv : Text × _). kv.1) d

-- The sources by name. Their health, which the source adds for display, is `source_health`.
unfoldable pub list_sources : Manager → List Source
list_sources m = sort_by name_less (values m.sources)

-- What `sourceID` hashes.
unfoldable pub id_material : Source → Text
id_material src =
    src.kind ++ 0 ∷ src.name ++ 0 ∷ (if text_eq src.kind manual then src.content else src.url)

-- `hash` is the start of the SHA-256 sum, in hexadecimal.
unfoldable pub source_id : (Text → Text) → Source → Text
source_id hash src = codes "src_" ++ hash (id_material src)

-- The fields that a new source gets where they are empty, in the order of the code.
unfoldable pub name_source : (Text → Text) → Source → Source
name_source hash s =
    let src = record s { kind = nonempty s.kind filter_url; name = nonempty s.name s.url } in
    record src { id = nonempty src.id (source_id hash src) }

unfoldable pub with_defaults : (Text → Text) → Scheduler → Source → Source
with_defaults hash cfg s =
    let src = name_source hash s in
    record src {
      sync_interval = nonempty src.sync_interval cfg.default_sync_interval;
      stale_feed_policy = nonempty src.stale_feed_policy policy_exclude;
    }

-- What a source that is replaced keeps of its syncs.
unfoldable pub keep_history : Source → Option Source → Source
keep_history src none = src
keep_history src (some old) = record src {
  last_sync_started = old.last_sync_started;
  last_success = old.last_success;
  last_error = old.last_error;
  consecutive_fails = old.consecutive_fails;
  next_sync = old.next_sync;
  entries = old.entries;
  added = old.added;
  removed = old.removed;
  changed = old.changed;
  unsupported = old.unsupported;
  allow_exceptions = old.allow_exceptions;
  pending_review = old.pending_review;
}

-- Why a source is refused.
unfoldable pub source_problem : Source → Option Problem
source_problem src =
    if not (valid_source_type src.kind)
    then some (invalid_source_type src.kind)
    else if not (valid_stale_feed_policy src.stale_feed_policy)
    then some (invalid_stale_feed_policy src.stale_feed_policy)
    else if text_eq src.kind filter_url && text_eq src.url []
    then some url_required
    else if (text_eq src.kind agh_custom_rules || text_eq src.kind agh_query_log_cname)
        && text_eq src.url []
    then some base_url_required
    else if text_eq src.kind manual && text_eq src.content []
    then some content_required
    else none

unfoldable pub upsert_source : (Text → Text) → Source → Manager → Outcome (Source × Manager)
upsert_source hash s m =
    let src = with_defaults hash m.cfg.scheduler s in
    elim (source_problem src) [
      | some problem ↦ refused problem
      | none ↦
          let kept = keep_history src (lookup src.id m.sources) in
          done (kept, record m { sources = insert src.id kept m.sources })
    ]

-- The loop that drops the entries of a source with their overrides and feed times.
unfoldable pub purge : Text → Dict Text Entry → Manager → Manager
purge id [] m = m
purge id ((eid, e) ∷ es) m = purge id es (
    if text_eq e.source_name id
    then record m {
      entries = delete eid m.entries;
      overrides = delete eid m.overrides;
      feed_seen = delete eid m.feed_seen;
    }
    else m)

unfoldable pub delete_source : Text → Manager → Manager
delete_source id m =
    purge id m.entries (record m { sources = delete id m.sources; pending = delete id m.pending })
