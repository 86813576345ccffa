-- ===== src/Config/Defaults.antt =====
-- internal/config/config.go: `Defaults`.
use mirage_chaff.Base.{true, false, [], ◌∷◌}
use mirage_chaff.Base.Text.{codes}
use mirage_chaff.Base.Int.{pos}
use mirage_chaff.Server.Fallback.{UnknownProfileActions, UnknownProfileConfig}
use mirage_chaff.Config.{AghManagedConfig, Config}

abbrev safe_actions : UnknownProfileActions
safe_actions = record {
  suspicious_domain = codes "observe";
  tracking_pixel = codes "forward";
  beacon = codes "forward";
  javascript = codes "forward";
  api_json = codes "forward";
}

abbrev default_profiles : UnknownProfileConfig
default_profiles = record {
  enabled = true;
  default = codes "safe";
  safe = safe_actions;
  balanced = record safe_actions {
    tracking_pixel = codes "stub:pixel";
    beacon = codes "stub:beacon-204";
  };
  aggressive = record {
    suspicious_domain = codes "stub:beacon-204";
    tracking_pixel = codes "stub:pixel";
    beacon = codes "stub:beacon-204";
    javascript = codes "candidate-log";
    api_json = codes "forward";
  };
}

abbrev default_managed : AghManagedConfig
default_managed = record {
  enabled = false;
  feed_path = codes "/agh/managed-rewrites.txt";
  target_name = codes "mirage-chaff.lan";
  target_mode = codes "resolved_ip";
  static_ipv4 = [];
  static_ipv6 = [];
  emergency_empty = false;
  auto_emergency_empty_on_target_failure = false;
  default_preset = codes "balanced";
  stale_target_ttl = codes "24h";
  scheduler = record {
    enabled = true;
    default_sync_interval = codes "12h";
    sync_timeout = codes "30s";
    jitter = codes "10m";
    stale_source_ttl = codes "72h";
    large_change_threshold_percent = pos 25;
    large_change_threshold_count = pos 500;
    large_change_requires_review = true;
  };
}

abbrev pub defaults : Config
defaults = record {
  mode = codes "full";
  key_type = codes "ecdsa";
  http3 = false;
  quic = false;
  https = codes ":443";
  resolvers = codes "https://1.1.1.1/dns-query" ∷ [];
  mimic = record { max_bytes = pos 8_388_608; cache_max = pos 512; allow_video = false };
  resources = record { max_conns = pos 1_024; rate_limit = pos 0; body_max_bytes = pos 33_554_432 };
  log = record { mode = codes "redacted"; redact = true; debug_scope = [] };
  observability = record {
    listen = codes "127.0.0.1:9256";
    catalog_enabled = true;
    emit_siem_catalog_fields = true;
  };
  agh_managed = default_managed;
  agh_sync = false;
  rule_catalog = record {
    path = codes "/var/lib/mirage-chaff/rule-catalog.json";
    refresh_on_reload = true;
  };
  unknown_profile = default_profiles;
  scrubbed_ua = [];
}
