-- ===== src/Managed/Types.antt =====
-- The data of internal/aghmanaged/manager.go and, of internal/rulecatalog/catalog.go and
-- internal/config/config.go, the fields that it reads.
use mirage_chaff.Base.{ℕ, Bool, false, List, Option, none, some, []}
use mirage_chaff.Base.Text.{Text, codes}
use mirage_chaff.Base.Dict.{Dict}
use mirage_chaff.Base.Int.{ℤ}

-- What the source calls `os.ErrNotExist`, and its other refusals.
pub data Problem : Type 0 where
  not_exist : Problem
  ids_required : Problem
  entry_not_found : Text → Problem
  newer_overlaps : Text → Problem
  priority_tie : ℤ → Problem
  invalid_source_type : Text → Problem
  invalid_stale_feed_policy : Text → Problem
  url_required : Problem
  base_url_required : Problem
  content_required : Problem
  invalid_preset : Text → Problem
  fetch_failed : Text → Problem

pub data Outcome {ℓ} (A : Type ℓ) : Type ℓ where
  refused : Problem → Outcome A
  done : A → Outcome A

abbrev pub or_else {ℓ} : {A : Type ℓ} → Option A → A → A
or_else none d = d
or_else (some a) d = a

-- `rulecatalog.Entry`
pub record Entry : Type 0 where
  pub id : Text
  pub source_name : Text
  pub original_rule : Text
  pub domain : Text
  pub path : Text
  pub category : Text
  pub layer : Text
  pub resource_type : Text
  pub risk : Text
  pub confidence : Text
  pub review_status : Text
  pub verified : Bool
  pub action_candidates : List Text
  pub expected_catalog : Text
  pub unsupported : Bool

-- `rulecatalog.Entry{}`
abbrev pub no_entry : Entry
no_entry = record {
  id = [];
  source_name = [];
  original_rule = [];
  domain = [];
  path = [];
  category = [];
  layer = [];
  resource_type = [];
  risk = [];
  confidence = [];
  review_status = [];
  verified = false;
  action_candidates = [];
  expected_catalog = [];
  unsupported = false;
}

pub record CatalogOverride : Type 0 where
  pub category : Text
  pub resource_type : Text
  pub risk : Text
  pub confidence : Text
  pub review_status : Text
  pub verified : Option Bool
  pub expected_catalog : Text
  pub action : Text
  pub rewrite_enabled : Option Bool
  pub rewrite_reason : Text
  pub notes : Text
  pub last_changed_by : Text

-- `CatalogOverride{}`
abbrev pub no_override : CatalogOverride
no_override = record {
  category = [];
  resource_type = [];
  risk = [];
  confidence = [];
  review_status = [];
  verified = none;
  expected_catalog = [];
  action = [];
  rewrite_enabled = none;
  rewrite_reason = [];
  notes = [];
  last_changed_by = [];
}

pub record Source : Type 0 where
  pub id : Text
  pub kind : Text
  pub name : Text
  pub url : Text
  pub content : Text
  pub enabled : Bool
  pub sync_interval : Text
  pub next_sync : ℕ
  pub last_sync_started : ℕ
  pub last_success : ℕ
  pub last_error : Text
  pub consecutive_fails : ℕ
  pub entries : ℕ
  pub added : ℕ
  pub removed : ℕ
  pub changed : ℕ
  pub unsupported : ℕ
  pub allow_exceptions : ℕ
  pub pending_review : Bool
  pub priority : ℤ
  pub stale_feed_policy : Text

pub record RollbackRecord : Type 0 where
  pub id : Text
  pub time : ℕ
  pub action : Text
  pub entry_ids : List Text
  pub before : Dict Text CatalogOverride
  pub before_exists : Dict Text Bool
  pub after : Dict Text CatalogOverride
  pub summary : Text

pub record FeedGenerationRecord : Type 0 where
  pub time : ℕ
  pub included_count : ℕ
  pub excluded_count : ℕ
  pub added_count : ℕ
  pub removed_count : ℕ
  pub conflict_count : ℕ
  pub target_mode : Text
  pub emergency_empty : Bool

-- The thresholds of `AGHManagedScheduler`, which the configuration's validation keeps from being
-- negative.
pub record Scheduler : Type 0 where
  pub enabled : Bool
  pub default_sync_interval : Text
  pub stale_source_ttl : ℕ
  pub large_change_threshold_percent : ℕ
  pub large_change_threshold_count : ℕ
  pub large_change_requires_review : Bool

pub record ManagedConfig : Type 0 where
  pub enabled : Bool
  pub target_name : Text
  pub target_mode : Text
  pub static_ipv4 : List Text
  pub static_ipv6 : List Text
  pub emergency_empty : Bool
  pub auto_emergency_empty_on_target_failure : Bool
  pub default_preset : Text
  pub stale_target_ttl : ℕ
  pub scheduler : Scheduler

-- A `net.IP`: whether `To4` gives one, and what `String` gives.
pub record Ip : Type 0 where
  pub is_v4 : Bool
  pub text : Text

pub record Manager : Type 0 where
  pub cfg : ManagedConfig
  pub sources : Dict Text Source
  pub entries : Dict Text Entry
  pub pending : Dict Text (List Entry)
  pub overrides : Dict Text CatalogOverride
  pub rollbacks : List RollbackRecord
  pub feed_seen : Dict Text ℕ
  pub feed_snapshot : List Text
  pub feed_history : List FeedGenerationRecord
  pub preset : Text
  pub target_ips : List Ip
  pub last_resolve : ℕ
  pub last_resolve_err : Text
  pub last_generated : ℕ

abbrev pub review_candidate : Text
review_candidate = codes "candidate"

abbrev pub review_approved : Text
review_approved = codes "approved"

abbrev pub review_rejected : Text
review_rejected = codes "rejected"

abbrev pub review_needs_test : Text
review_needs_test = codes "needs_test"

abbrev pub review_disabled : Text
review_disabled = codes "disabled"

abbrev pub layer_dns : Text
layer_dns = codes "dns"

abbrev pub layer_dom : Text
layer_dom = codes "dom"

abbrev pub allow_exception : Text
allow_exception = codes "allow_exception"
