-- ===== src/Managed/Examples.antt =====
-- Sources, imports, patches and feeds on a small catalog.
mod Changes
mod Imports
mod Feeds
mod Restart
use mirage_chaff.Base.{
  ℕ, ◌+◌, ◌≤◌, ◌<◌, ◌≡◌, ◌↔◌, refl, Bool, true, false, not, ◌&&◌, ◌||◌, List, [], ◌∷◌, ◌++◌, Option,
  none, some, length, if◌then◌else◌, inl, inr, arith, leb,
}
use mirage_chaff.Base.Text.{Text, codes, text_eq}
use mirage_chaff.Base.Dict.{Dict, lookup, insert, delete, text_key}
use mirage_chaff.Base.Keys.{HasUniqueKeys}
use mirage_chaff.Base.Int.{ℤ, pos, negsuc, ltz}
use mirage_chaff.Managed.Types.{
  Entry, no_entry, CatalogOverride, no_override, Source, Scheduler, ManagedConfig, Manager, Ip,
  Outcome, done, refused, RollbackRecord, or_else,
}
use mirage_chaff.Managed.Rows.{
  CatalogRow, override_of, string_in_slice, rewrite_enabled, conservative, balanced, aggressive,
}
use mirage_chaff.Managed.Rows.Presets.{implies, presets_ordered}
use mirage_chaff.Managed.Settings.{new_manager}

abbrev pub scheduler : Scheduler
scheduler = record {
  enabled = true;
  default_sync_interval = codes "12h";
  stale_source_ttl = 0;
  large_change_threshold_percent = 25;
  large_change_threshold_count = 500;
  large_change_requires_review = true;
}

abbrev pub config : ManagedConfig
config = record {
  enabled = true;
  target_name = codes "m.lan";
  target_mode = codes "cname";
  static_ipv4 = [];
  static_ipv6 = [];
  emergency_empty = false;
  auto_emergency_empty_on_target_failure = true;
  default_preset = codes "balanced";
  stale_target_ttl = 100;
  scheduler = scheduler;
}

abbrev pub entry : Text → Text → Text → Text → Entry
entry i owner name status = record no_entry {
  id = i;
  source_name = owner;
  domain = name;
  category = codes "ads";
  layer = codes "dns";
  review_status = status;
  action_candidates = codes "stub" ∷ [];
}

abbrev pub source : Text → Source
source i = record {
  id = i;
  kind = codes "manual";
  name = i;
  url = [];
  content = codes "ads.com";
  enabled = true;
  sync_interval = codes "12h";
  next_sync = 0;
  last_sync_started = 0;
  last_success = 0;
  last_error = [];
  consecutive_fails = 0;
  entries = 0;
  added = 0;
  removed = 0;
  changed = 0;
  unsupported = 0;
  allow_exceptions = 0;
  pending_review = false;
  priority = pos 0;
  stale_feed_policy = [];
}

abbrev pub a : Text
a = codes "a"

abbrev pub b : Text
b = codes "b"

abbrev pub s : Text
s = codes "s"

abbrev pub t : Text
t = codes "t"

abbrev pub entry_a : Entry
entry_a = entry a s (codes "ads.com") (codes "approved")

abbrev pub entry_b : Entry
entry_b = entry b t (codes "ads.com") (codes "approved")

-- Two sources with an entry each for the same domain.
abbrev pub manager : Manager
manager = record {
  cfg = config;
  sources = (s, source s) ∷ (t, source t) ∷ [];
  entries = (a, entry_a) ∷ (b, entry_b) ∷ [];
  pending = [];
  overrides = [];
  rollbacks = [];
  feed_seen = [];
  feed_snapshot = [];
  feed_history = [];
  preset = [];
  target_ips = [];
  last_resolve = 0;
  last_resolve_err = [];
  last_generated = 0;
}

-- Stands for the start of a hash.
abbrev pub hash : Text → Text
hash x = x

abbrev pub parse_ip : Text → Option Ip
parse_ip x = none
