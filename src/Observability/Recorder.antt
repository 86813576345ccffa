-- ===== src/Observability/Recorder.antt =====
-- internal/observability/record.go: Recorder, its ring of records and its counters. The clock's
-- reading is an argument. `Log` also writes one line, which is `log_line`.
pub mod Rotate
pub mod Ring
pub mod Stream
pub mod Hidden
pub mod Counters
use mirage_chaff.Base.{
  ℕ, ◌+◌, ◌-◌, ◌%◌, Bool, true, false, not, ◌&&◌, ◌||◌, List, [], ◌∷◌, ◌++◌, map, Option, none,
  some, length, take, drop, replicate, ltb, leb, ◌==◌, suc, zero, if◌then◌else◌,
}
use mirage_chaff.Base.Text.{Text, codes, text_eq}
use mirage_chaff.Base.Strings.{has_suffix}
use mirage_chaff.Base.Sort.{sort_by, text_lt}
use mirage_chaff.Base.Dict.{Eq, Dict, lookup, insert, text_key, nat_key}
use mirage_chaff.Managed.Types.{or_else}
use mirage_chaff.Managed.Rows.{nonempty}
use mirage_chaff.Observability.Records.{
  Record, DebugScope, Options, CatalogMetricKey, metric_key, Recorder,
}
use mirage_chaff.Observability.Modes.{
  mode_off, mode_stats, mode_redacted, in_scope, debug_match, apply_policy,
}
use mirage_chaff.Observability.Redact.{redact_url}

-- `Record{}`, which fills a new ring.
abbrev pub no_record : Record
no_record = record {
  time = 0;
  domain = [];
  path = [];
  method = [];
  action = [];
  rule = [];
  status = 0;
  bytes = 0;
  content_type = [];
  media_type = [];
  rewritten = false;
  client = [];
  catalog_id = [];
  catalog_source = [];
  category = [];
  layer = [];
  resource_type = [];
  risk = [];
  confidence = [];
  review_status = [];
  verified = false;
  rewrite_state = [];
  cname_target = [];
  tracker_vendor = [];
  cname_confidence = [];
  expected_catalog = [];
  stub_template = [];
  unknown_profile = [];
  fallback_reason = [];
  redaction_mode = [];
}

unfoldable pub new_recorder_with_options : Options → ℕ → Recorder
new_recorder_with_options opts ring_size = record {
  redact = opts.redact;
  mode = nonempty opts.mode mode_redacted;
  debug_scopes = opts.debug_scopes;
  catalog_metrics = opts.catalog_metrics;
  emit_catalog_log = opts.emit_catalog_log;
  ring = replicate (if ring_size == 0 then 1_024 else ring_size) no_record;
  next = 0;
  full = false;
  by_action = [];
  by_status = [];
  by_domain = [];
  by_rule = [];
  by_catalog = [];
  by_catalog_class = [];
  total = 0;
  bytes_total = 0;
}

unfoldable pub set_redact : Bool → Recorder → Recorder
set_redact v r = record r { redact = v }

unfoldable pub set_options : Options → Recorder → Recorder
set_options opts r = record r {
  redact = opts.redact;
  mode = nonempty opts.mode mode_redacted;
  debug_scopes = opts.debug_scopes;
  catalog_metrics = opts.catalog_metrics;
  emit_catalog_log = opts.emit_catalog_log;
}

-- `s[i] = a`
unfoldable pub set_at {ℓ} : {A : Type ℓ} → ℕ → A → List A → List A
set_at i a [] = []
set_at zero a (x ∷ xs) = a ∷ xs
set_at (suc i) a (x ∷ xs) = x ∷ set_at i a xs

-- `m[k]++`
unfoldable pub count {ℓ} : {K : Type ℓ} ⦃e : Eq K⦄ → K → Dict K ℕ → Dict K ℕ
count k d = insert k (or_else (lookup k d) 0 + 1) d

unfoldable pub count_named : Text → Dict Text ℕ → Dict Text ℕ
count_named k d = if text_eq k [] then d else count k d

unfoldable pub has_catalog_class : Record → Bool
has_catalog_class rec =
    not (text_eq rec.category [])
    || not (text_eq rec.risk [])
    || not (text_eq rec.review_status [])
    || not (text_eq rec.catalog_source [])

unfoldable pub catalog_class : Record → CatalogMetricKey
catalog_class rec = record {
  category = nonempty rec.category (codes "unknown");
  risk = nonempty rec.risk (codes "unknown");
  verified = if rec.verified then codes "true" else codes "false";
  review_status = nonempty rec.review_status (codes "unknown");
  source_type = nonempty rec.catalog_source (codes "unknown");
}

-- The part of `Log` under the lock.
unfoldable pub log : ℕ → Record → Recorder → Recorder
log now rec r =
    let next = (r.next + 1) % length r.ring in
    record r {
      ring = set_at r.next (apply_policy now r rec) r.ring;
      next = next;
      full = r.full || (next == 0);
      by_action = count rec.action r.by_action;
      by_status = count rec.status r.by_status;
      by_domain = count_named rec.domain r.by_domain;
      by_rule = count_named rec.rule r.by_rule;
      by_catalog = count_named rec.catalog_id r.by_catalog;
      by_catalog_class =
          if r.catalog_metrics && has_catalog_class rec
          then count (catalog_class rec) r.by_catalog_class
          else r.by_catalog_class;
      total = r.total + 1;
      bytes_total = r.bytes_total + rec.bytes;
    }

-- The records in the ring, oldest first.
unfoldable pub buffered : Recorder → List Record
buffered r = if r.full then drop r.next r.ring ++ take r.next r.ring else take r.next r.ring

-- The last of them.
unfoldable pub last_of {ℓ} : {A : Type ℓ} → ℕ → List A → List A
last_of n xs = if ltb n (length xs) then drop (length xs - n) xs else xs

-- The records as they are shown.
unfoldable pub shown : ℕ → Recorder → List Record → List Record
shown now r recs =
    if r.redact || text_eq r.mode mode_stats || text_eq r.mode mode_off
    then map (apply_policy now r) recs
    else recs

-- `SnapshotSince`. The sequence is a number that the recorder returned before.
unfoldable pub snapshot_since : ℕ → ℕ → Recorder → List Record × ℕ
snapshot_since now since r =
    if leb r.total since
    then ([], r.total)
    else (shown now r (last_of (r.total - since) (buffered r)), r.total)

-- `Snapshot`; all records for 0, which also stands for the negative numbers.
unfoldable pub snapshot : ℕ → ℕ → Recorder → List Record
snapshot now n r = let recs = shown now r (buffered r) in if n == 0 then recs else last_of n recs

unfoldable pub clear_catalog_fields : Record → Record
clear_catalog_fields rec = record rec {
  catalog_id = [];
  catalog_source = [];
  category = [];
  layer = [];
  resource_type = [];
  risk = [];
  confidence = [];
  review_status = [];
  verified = false;
  rewrite_state = [];
  cname_target = [];
  tracker_vendor = [];
  cname_confidence = [];
  expected_catalog = [];
  stub_template = [];
}

-- What `Log` writes to the log of the process: the record that it marshals, none in the mode `off`.
unfoldable pub log_line : ℕ → Record → Recorder → Option Record
log_line now rec r =
    let stored = apply_policy now r rec in
    let logged = if r.emit_catalog_log then stored else clear_catalog_fields stored in
    if text_eq r.mode mode_off
    then none
    else if r.redact && (text_eq r.mode [] || text_eq r.mode mode_redacted)
    then some (record logged { path = redact_url logged.path })
    else some logged
