-- ===== src/Server/Process.antt =====
-- internal/server/server.go: the running server, and how `Run` starts it. What the disk and the network
-- give is a reading. Of a resolver only the upstreams that it asks are kept; the handlers that hold
-- one are built with the resolver of that moment.
use mirage_chaff.Base.{ℕ, ◌+◌, ◌==◌, Bool, List, [], ◌∷◌, Option, none, some, if◌then◌else◌}
use mirage_chaff.Base.Text.{Text, codes, text_eq}
use mirage_chaff.Base.Strings.{trim_space}
use mirage_chaff.Base.Int.{positive_or}
use mirage_chaff.Policy.Rules.{Ruleset, Result, fails, is, one_of, catalog_refs}
use mirage_chaff.Policy.Load.{PolicyFile, Dir, load}
use mirage_chaff.Policy.Engine.{Engine, new_engine}
use mirage_chaff.RuleCatalog.{CatalogEntry}
use mirage_chaff.Mimic.Cache.{DecoyCache}
use mirage_chaff.Observability.Records.{DebugScope, Options, Recorder}
use mirage_chaff.Observability.Recorder.{new_recorder_with_options}
use mirage_chaff.Managed.Types.{Ip, Manager}
use mirage_chaff.Managed.Stored.{StateFile, open_manager}
use mirage_chaff.Server.Breaker.{Breaker, new_breaker}
use mirage_chaff.Server.Limits.{RateLimiter, new_rate_limiter}
use mirage_chaff.Base.Int.{pos}
use mirage_chaff.Config.{Config, MimicConfig, DebugScopeConfig, check, managed_config, duration_or}

-- The mimic handler: the resolver that its client dials through, its limits and its decoys.
pub record MimicHandler : Type 0 where
  pub resolver : List Text
  pub max_bytes : ℕ
  pub allow_video : Bool
  pub decoys : DecoyCache

pub record Forwarder : Type 0 where
  pub resolver : List Text
  pub scrubbed_ua : Text

-- The store of the imported rules. `opened` tells one opening of the file from another.
pub record RuleStore : Type 0 where
  pub opened : ℕ
  pub rules : List CatalogEntry

pub record Process : Type 0 where
  pub cfg : Config
  -- The names of the stub catalog.
  pub catalog : List Text
  pub engine : Engine
  pub resolver : List Text
  pub mimic : MimicHandler
  pub forwarder : Forwarder
  pub recorder : Recorder
  pub breaker : Breaker
  pub limiter : Option RateLimiter
  pub rules : RuleStore
  pub managed : Manager
  -- The resolver that the manager was opened with, and the store that the administration was given.
  pub managed_resolver : List Text
  pub admin_rules : ℕ

-- What is read: the configuration, none where it cannot be loaded; the names of the stub catalog; the
-- directory of the policy; the file of the imported rules, and the rules after their sync.
pub record Reading : Type 0 where
  pub config : Option Config
  pub catalog : Option (List Text)
  pub policy : Dir
  pub rule_file : Option (List CatalogEntry)
  pub synced : List CatalogEntry → List CatalogEntry

-- `resolver.New`, whose `buildLookup` takes every upstream.
unfoldable pub new_resolver : List Text → Option (List Text)
new_resolver [] = none
new_resolver (up ∷ ups) = some (up ∷ ups)

-- `mimic.New`
unfoldable pub new_mimic : List Text → MimicConfig → MimicHandler
new_mimic res c = record {
  resolver = res;
  max_bytes = positive_or c.max_bytes 8_388_608;
  allow_video = c.allow_video;
  decoys = record { cache_max = positive_or c.cache_max 512; cache = [] };
}

abbrev pub default_scrubbed_ua : Text
default_scrubbed_ua =
    codes
      "Mozilla/5.0 (X11; Linux x86_64) AppleWebKit/537.36 (KHTML, like Gecko) Chrome/136.0.0.0 Safari/537.36"

-- `forward.New`
unfoldable pub new_forwarder : List Text → Text → Forwarder
new_forwarder res ua = record {
  resolver = res;
  scrubbed_ua = let t = trim_space ua in if text_eq t [] then default_scrubbed_ua else t;
}

-- `validateRefs`: the first of the names that is not in the catalog.
unfoldable pub missing_ref : List Text → List Text → Option Text
missing_ref catalog [] = none
missing_ref catalog (n ∷ ns) = if one_of n catalog then missing_ref catalog ns else some n

unfoldable pub validate_refs : List Text → Ruleset → Option Text
validate_refs catalog rs = missing_ref catalog (catalog_refs rs)

-- `Expires` of a debug scope: none for a lifetime that is empty, not a duration, or 0.
unfoldable pub scope_expiry : (Text → Option ℕ) → ℕ → Text → Option ℕ
scope_expiry duration now ttl =
    let d = duration_or duration ttl 0 in if d == 0 then none else some (now + d)

unfoldable pub debug_scopes : (Text → Option ℕ) → ℕ → List DebugScopeConfig → List DebugScope
debug_scopes duration now [] = []
debug_scopes duration now (s ∷ ss) =
    record { domain = s.domain; client = s.client; expires = scope_expiry duration now s.ttl }
    ∷ debug_scopes duration now ss

unfoldable pub recorder_options : (Text → Option ℕ) → ℕ → Config → Options
recorder_options duration now c = record {
  redact = c.log.redact;
  mode = c.log.mode;
  debug_scopes = debug_scopes duration now c.log.debug_scope;
  catalog_metrics = c.observability.catalog_enabled;
  emit_catalog_log = c.observability.emit_siem_catalog_fields;
}

-- The store after its sync, where one is asked for.
unfoldable pub sync_store : Bool → (List CatalogEntry → List CatalogEntry) → RuleStore → RuleStore
sync_store asked synced s = if asked then record s { rules = synced s.rules } else s

pub data StartError : Type 0 where
  bad_config : StartError
  no_catalog : StartError
  no_policy : StartError
  unknown_ref : Text → StartError
  no_rules : StartError
  no_resolver : StartError
  no_state : StartError

module _ (duration : Text → Option ℕ) where
  -- The server that `Run` has built when it starts to listen.
  unfoldable pub built :
      Config → List Text → Ruleset → List CatalogEntry → Reading → List Text → Manager → ℕ → Process
  built cfg catalog rs rules r res m now = record {
    cfg = cfg;
    catalog = catalog;
    engine = new_engine rs;
    resolver = res;
    mimic = new_mimic res cfg.mimic;
    forwarder = new_forwarder res cfg.scrubbed_ua;
    recorder = new_recorder_with_options (recorder_options duration now cfg) 4_096;
    breaker = new_breaker (pos 5) (pos 30_000_000_000);
    limiter = new_rate_limiter cfg.resources.rate_limit now;
    rules = sync_store cfg.agh_sync r.synced (record { opened = 0; rules = rules });
    managed = m;
    managed_resolver = res;
    admin_rules = 0;
  }

  module _ (parse : Text → Option PolicyFile) where
    -- `Run` up to the listeners, with a configuration that `cmdRun` has loaded.
    unfoldable pub run_with : Config → StateFile → Reading → ℕ → Result StartError Process
    run_with cfg state r now = elim r.catalog [
      | none ↦ fails no_catalog
      | some catalog ↦ elim (load parse r.policy) [
        | fails e ↦ fails no_policy
        | is rs ↦ elim (validate_refs catalog rs) [
          | some name ↦ fails (unknown_ref name)
          | none ↦ elim r.rule_file [
            | none ↦ fails no_rules
            | some rules ↦ elim (new_resolver cfg.resolvers) [
              | none ↦ fails no_resolver
              | some res ↦ elim (open_manager (managed_config duration cfg.agh_managed) state) [
                | none ↦ fails no_state
                | some m ↦ is (built cfg catalog rs rules r res m now)
              ]
            ]
          ]
        ]
      ]
    ]

    module _ (parse_ip : Text → Option Ip) (is_duration : Text → Bool) where
      -- `cmdRun`
      unfoldable pub start : StateFile → Reading → ℕ → Result StartError Process
      start state r now = elim r.config [
        | none ↦ fails bad_config
        | some cfg ↦ elim (check parse_ip is_duration cfg) [
          | some e ↦ fails bad_config
          | none ↦ run_with cfg state r now
        ]
      ]
