-- ===== src/Config.antt =====
-- internal/config/config.go: the configuration, as far as `Check` and the running server read it.
-- Whether a text is a duration of package time, and the parsing of an address, are arguments.
pub mod Checks
pub mod Targets
pub mod Defaults
mod Examples
use mirage_chaff.Base.{
  ℕ, zero, Bool, true, false, not, ◌&&◌, ◌||◌, List, [], ◌∷◌, Option, none, some, ◌*◌,
  if◌then◌else◌,
}
use mirage_chaff.Base.Text.{Text, codes, text_eq}
use mirage_chaff.Base.Strings.{trim_space}
use mirage_chaff.Base.Int.{ℤ, pos, ltz, positive_or}
use mirage_chaff.Policy.Rules.{one_of}
use mirage_chaff.Server.Fallback.{UnknownProfileConfig}
use mirage_chaff.Managed.Types.{Ip, ManagedConfig, or_else}

-- Where `Expires` of a debug scope comes from is its lifetime.
pub record DebugScopeConfig : Type 0 where
  pub domain : Text
  pub client : Text
  pub ttl : Text

pub record LogConfig : Type 0 where
  pub mode : Text
  pub redact : Bool
  pub debug_scope : List DebugScopeConfig

pub record MimicConfig : Type 0 where
  pub max_bytes : ℤ
  pub cache_max : ℤ
  pub allow_video : Bool

pub record ResourcesConfig : Type 0 where
  pub max_conns : ℤ
  pub rate_limit : ℤ
  pub body_max_bytes : ℤ

pub record ObservabilityConfig : Type 0 where
  pub listen : Text
  pub catalog_enabled : Bool
  pub emit_siem_catalog_fields : Bool

pub record RuleCatalogConfig : Type 0 where
  pub path : Text
  pub refresh_on_reload : Bool

pub record AghManagedScheduler : Type 0 where
  pub enabled : Bool
  pub default_sync_interval : Text
  pub sync_timeout : Text
  pub jitter : Text
  pub stale_source_ttl : Text
  pub large_change_threshold_percent : ℤ
  pub large_change_threshold_count : ℤ
  pub large_change_requires_review : Bool

pub record AghManagedConfig : Type 0 where
  pub enabled : Bool
  pub feed_path : Text
  pub target_name : Text
  pub target_mode : Text
  pub static_ipv4 : List Text
  pub static_ipv6 : List Text
  pub emergency_empty : Bool
  pub auto_emergency_empty_on_target_failure : Bool
  pub default_preset : Text
  pub stale_target_ttl : Text
  pub scheduler : AghManagedScheduler

pub record Config : Type 0 where
  pub mode : Text
  -- `Cert.KeyType`, `Protocols.HTTP3`, `Protocols.QUIC` and `Listen.HTTPS`.
  pub key_type : Text
  pub http3 : Bool
  pub quic : Bool
  pub https : Text
  -- `Upstream.Resolvers`
  pub resolvers : List Text
  pub mimic : MimicConfig
  pub resources : ResourcesConfig
  pub log : LogConfig
  pub observability : ObservabilityConfig
  pub agh_managed : AghManagedConfig
  -- `AGHSync.Enabled`
  pub agh_sync : Bool
  pub rule_catalog : RuleCatalogConfig
  pub unknown_profile : UnknownProfileConfig
  pub scrubbed_ua : Text

pub data ConfigError : Type 0 where
  bad_mode : Text → ConfigError
  bad_key_type : Text → ConfigError
  http3_without_quic : ConfigError
  no_https : ConfigError
  no_resolvers : ConfigError
  bad_log_mode : Text → ConfigError
  bad_profile : Text → ConfigError
  no_rule_catalog : ConfigError
  no_feed_path : ConfigError
  bad_target_mode : Text → ConfigError
  no_target_name : ConfigError
  bad_static_ipv4 : Text → ConfigError
  bad_static_ipv6 : Text → ConfigError
  no_static_ip : ConfigError
  bad_preset : Text → ConfigError
  negative_percent : ConfigError
  negative_count : ConfigError
  no_observability : ConfigError
  bad_duration : Text → ConfigError
  blank_scrubbed_ua : ConfigError

-- `targetMode`
unfoldable pub target_mode_of : Text → Text
target_mode_of mode = if text_eq mode [] then codes "resolved_ip" else mode

-- `if !ok { return err }`, and then the rest.
unfoldable pub demand : Bool → ConfigError → Option ConfigError → Option ConfigError
demand ok err rest = if ok then rest else some err

-- `if err := …; err != nil { return err }`, and then the rest.
unfoldable pub first_error : Option ConfigError → Option ConfigError → Option ConfigError
first_error (some err) rest = some err
first_error none rest = rest

abbrev pub log_modes : List Text
log_modes = [] ∷ codes "off" ∷ codes "redacted" ∷ codes "stats" ∷ codes "debug" ∷ codes "full" ∷ []

abbrev pub profiles : List Text
profiles = [] ∷ codes "safe" ∷ codes "balanced" ∷ codes "aggressive" ∷ []

abbrev pub presets : List Text
presets = [] ∷ codes "conservative" ∷ codes "balanced" ∷ codes "aggressive" ∷ []

abbrev pub target_modes : List Text
target_modes = [] ∷ codes "resolved_ip" ∷ codes "cname" ∷ codes "static_ip" ∷ []

abbrev pub no_texts : List Text → Bool
no_texts [] = true
no_texts (s ∷ ss) = false

abbrev pub negative : ℤ → Bool
negative n = ltz n (pos 0)

-- The checks of the unknown profile and the path of the rule catalog.
unfoldable pub check_profiles : Config → Option ConfigError → Option ConfigError
check_profiles c rest =
    demand (one_of c.unknown_profile.default profiles) (bad_profile c.unknown_profile.default)
      (demand (not (text_eq c.rule_catalog.path [])) no_rule_catalog rest)

-- The loop over the durations, with `checkDuration`.
unfoldable pub check_durations : (Text → Bool) → List Text → Option ConfigError → Option ConfigError
check_durations is_duration [] rest = rest
check_durations is_duration (raw ∷ raws) rest =
    demand (text_eq raw [] || is_duration raw) (bad_duration raw)
      (check_durations is_duration raws rest)

-- The durations that `Check` tests.
abbrev pub durations : AghManagedScheduler → List Text
durations s = s.default_sync_interval ∷ s.sync_timeout ∷ s.jitter ∷ s.stale_source_ttl ∷ []

module _ (parse_ip : Text → Option Ip) where
  -- The address is one, and of the family that is asked for.
  unfoldable pub static_ok : Bool → Text → Bool
  static_ok v4 raw = elim (parse_ip raw) [
    | none ↦ false
    | some ip ↦ if v4 then ip.is_v4 else not ip.is_v4
  ]

  -- A loop of `checkStaticIPs`; `rest` is what comes behind it.
  unfoldable pub check_statics :
      Bool → (Text → ConfigError) → List Text → Option ConfigError → Option ConfigError
  check_statics v4 err [] rest = rest
  check_statics v4 err (raw ∷ raws) rest =
      demand (static_ok v4 raw) (err raw) (check_statics v4 err raws rest)

  -- `checkStaticIPs`; behind the loops every address counted as valid.
  unfoldable pub check_static_ips : List Text → List Text → Option ConfigError
  check_static_ips v4s v6s = check_statics true bad_static_ipv4 v4s (
      check_statics false bad_static_ipv6 v6s
        (demand (not (no_texts v4s && no_texts v6s)) no_static_ip none))

  -- The second switch over the target's mode.
  unfoldable pub check_target : AghManagedConfig → Option ConfigError
  check_target c =
      let mode = target_mode_of c.target_mode in
      if one_of mode (codes "resolved_ip" ∷ codes "cname" ∷ [])
      then demand (not (text_eq c.target_name [])) no_target_name none
      else if text_eq mode (codes "static_ip")
      then check_static_ips c.static_ipv4 c.static_ipv6
      else none

  -- The checks of `AGHManaged` from its feed's path to its thresholds.
  unfoldable pub check_managed : AghManagedConfig → Option ConfigError → Option ConfigError
  check_managed m rest = demand (not (text_eq m.feed_path [])) no_feed_path (
      demand (one_of m.target_mode target_modes) (bad_target_mode m.target_mode) (
        first_error (check_target m) (
          demand (one_of m.default_preset presets) (bad_preset m.default_preset) (
            demand (not (negative m.scheduler.large_change_threshold_percent)) negative_percent (
              demand (not (negative m.scheduler.large_change_threshold_count)) negative_count
                rest)))))

  -- `Check`, less its warning for a newer version; none is `nil`.
  unfoldable pub check : (Text → Bool) → Config → Option ConfigError
  check is_duration c =
      let m = c.agh_managed in
      demand (one_of c.mode (codes "full" ∷ codes "stub-only" ∷ [])) (bad_mode c.mode) (
        demand (one_of c.key_type (codes "ecdsa" ∷ codes "rsa" ∷ [])) (bad_key_type c.key_type) (
          demand (not c.http3 || c.quic) http3_without_quic (
            demand (not (text_eq c.https [])) no_https (
              demand (not (no_texts c.resolvers)) no_resolvers (
                demand (one_of c.log.mode log_modes) (bad_log_mode c.log.mode) (
                  check_profiles c (
                    check_managed m (
                      demand (not (text_eq c.observability.listen [])) no_observability (
                        check_durations is_duration (durations m.scheduler) (
                          demand
                            (text_eq c.scrubbed_ua []
                              || not (text_eq (trim_space c.scrubbed_ua) []))
                            blank_scrubbed_ua none))))))))))

-- `durationOr`; `duration` gives what a text that is not empty stands for, if it is a duration.
unfoldable pub duration_or : (Text → Option ℕ) → Text → ℕ → ℕ
duration_or duration raw fallback =
    if text_eq raw [] then fallback else or_else (duration raw) fallback

abbrev pub hour : ℕ
hour = 3_600_000_000_000

-- `staleSourceDuration`
unfoldable pub stale_source_duration : (Text → Option ℕ) → Text → ℕ
stale_source_duration duration raw =
    if text_eq raw (codes "0") then 0 else duration_or duration raw (72 * hour)

abbrev pub natural : ℤ → ℕ
natural n = positive_or n 0

-- The settings as the manager reads them, with the durations of the places where it does.
unfoldable pub managed_config : (Text → Option ℕ) → AghManagedConfig → ManagedConfig
managed_config duration c = record {
  enabled = c.enabled;
  target_name = c.target_name;
  target_mode = c.target_mode;
  static_ipv4 = c.static_ipv4;
  static_ipv6 = c.static_ipv6;
  emergency_empty = c.emergency_empty;
  auto_emergency_empty_on_target_failure = c.auto_emergency_empty_on_target_failure;
  default_preset = c.default_preset;
  stale_target_ttl = duration_or duration c.stale_target_ttl (24 * hour);
  scheduler = record {
    enabled = c.scheduler.enabled;
    default_sync_interval = c.scheduler.default_sync_interval;
    stale_source_ttl = stale_source_duration duration c.scheduler.stale_source_ttl;
    large_change_threshold_percent = natural c.scheduler.large_change_threshold_percent;
    large_change_threshold_count = natural c.scheduler.large_change_threshold_count;
    large_change_requires_review = c.scheduler.large_change_requires_review;
  };
}
