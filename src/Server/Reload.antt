-- ===== src/Server/Reload.antt =====
-- internal/server/server.go: `reload`, on SIGHUP. It changes nothing before the last check has passed.
pub mod Refs
pub mod Swapped
pub mod Applied
pub mod Ready
pub mod Events
mod Examples
use mirage_chaff.Base.{
  ℕ, suc, ◌+◌, Bool, true, false, ◌&&◌, List, [], ◌∷◌, Option, none, some, if◌then◌else◌,
}
use mirage_chaff.Base.Text.{Text, text_eq}
use mirage_chaff.Policy.Rules.{Ruleset, Result, fails, is}
use mirage_chaff.Policy.Load.{PolicyFile, load}
use mirage_chaff.Policy.Engine.{swap}
use mirage_chaff.Observability.Recorder.{set_options}
use mirage_chaff.Managed.Types.{Ip}
use mirage_chaff.Managed.Settings.{set_config}
use mirage_chaff.Server.Limits.{new_rate_limiter}
use mirage_chaff.Config.{Config, check, managed_config}
use mirage_chaff.Server.Process.{
  Process, Reading, Forwarder, RuleStore, new_resolver, new_mimic, new_forwarder, validate_refs,
  recorder_options, sync_store,
}

unfoldable pub equal_strings : List Text → List Text → Bool
equal_strings [] [] = true
equal_strings [] (b ∷ bs) = false
equal_strings (a ∷ xs) [] = false
equal_strings (a ∷ xs) (b ∷ bs) = text_eq a b && equal_strings xs bs

-- The part of a configuration that a reload takes over, whatever the resolvers.
unfoldable pub take_config : Config → Config → Config
take_config new old = record old {
  mode = new.mode;
  log = new.log;
  unknown_profile = new.unknown_profile;
  rule_catalog = new.rule_catalog;
  agh_sync = new.agh_sync;
  agh_managed = new.agh_managed;
  mimic = new.mimic;
  resources = record old.resources {
    rate_limit = new.resources.rate_limit;
    body_max_bytes = new.resources.body_max_bytes;
  };
}

-- The resolver and the forwarder, rebuilt where the list of the upstreams changed.
unfoldable pub swap_resolver : Config → Process → Process
swap_resolver new p =
    if equal_strings p.cfg.resolvers new.resolvers then p else elim (new_resolver new.resolvers) [
      | none ↦ p
      | some res ↦ record p {
        resolver = res;
        forwarder = new_forwarder res new.scrubbed_ua;
        cfg = record p.cfg { resolvers = new.resolvers };
      }
    ]

-- The imported rules, opened again and synced where the configuration asks for it.
unfoldable pub refresh_rules : Config → Reading → Process → Process
refresh_rules new r p =
    if new.rule_catalog.refresh_on_reload
    then elim r.rule_file [
      | none ↦ p
      | some rules ↦ record p {
        rules =
            sync_store new.agh_sync r.synced
              (record { opened = p.rules.opened + 1; rules = rules });
      }
    ]
    else p

module _ (duration : Text → Option ℕ) where
  -- The swap of what does not depend on the resolvers.
  unfoldable pub swap_state : Config → List Text → Ruleset → ℕ → Process → Process
  swap_state new catalog rs now p = record p {
    catalog = catalog;
    engine = swap p.engine rs;
    cfg = take_config new p.cfg;
    managed = set_config (managed_config duration new.agh_managed) p.managed;
    limiter = new_rate_limiter new.resources.rate_limit now;
    mimic = new_mimic p.resolver new.mimic;
  }

  unfoldable pub set_recorder : Config → ℕ → Process → Process
  set_recorder new now p = record p {
    recorder = set_options (recorder_options duration now new) p.recorder;
  }

  -- Behind the last check.
  unfoldable pub apply : Config → List Text → Ruleset → Reading → ℕ → Process → Process
  apply new catalog rs r now p =
      set_recorder new now
        (refresh_rules new r (swap_resolver new (swap_state new catalog rs now p)))

-- What a reload found: the reason to keep everything, or what it swaps in.
pub data Validation : Type 0 where
  aborted : Validation
  validated : Config → List Text → Ruleset → Validation

module _ (parse : Text → Option PolicyFile) where
  unfoldable pub validate_with : Config → Reading → Validation
  validate_with new r = elim r.catalog [
    | none ↦ aborted
    | some catalog ↦ elim (load parse r.policy) [
      | fails e ↦ aborted
      | is rs ↦ elim (validate_refs catalog rs) [
        | some name ↦ aborted
        | none ↦ validated new catalog rs
      ]
    ]
  ]

  module _ (parse_ip : Text → Option Ip) (is_duration : Text → Bool) where
    -- The returns of `reload`.
    unfoldable pub validate : Reading → Validation
    validate r = elim r.config [
      | none ↦ aborted
      | some new ↦ elim (check parse_ip is_duration new) [
        | some e ↦ aborted
        | none ↦ validate_with new r
      ]
    ]

    module _ (duration : Text → Option ℕ) where
      unfoldable pub finish : Validation → Reading → ℕ → Process → Process
      finish aborted r now p = p
      finish (validated new catalog rs) r now p = apply duration new catalog rs r now p

      unfoldable pub reload : Reading → ℕ → Process → Process
      reload r now p = finish (validate r) r now p
