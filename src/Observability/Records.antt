-- ===== src/Observability/Records.antt =====
-- internal/observability/record.go: the data of the recorder. The counters count requests and bytes
-- and stay below 2 ^ 63.
use mirage_chaff.Base.{◌≡◌, ◌↔◌, ℕ, Bool, true, List, ◌&&◌, arith, Option}
use mirage_chaff.Base.Text.{Text, text_eq, text_eq_iff}
use mirage_chaff.Base.Dict.{Eq, Dict}

pub record Record : Type 0 where
  pub time : ℕ
  pub domain : Text
  pub path : Text
  pub method : Text
  pub action : Text
  pub rule : Text
  pub status : ℕ
  pub bytes : ℕ
  pub content_type : Text
  pub media_type : Text
  pub rewritten : Bool
  pub client : Text
  pub catalog_id : Text
  pub catalog_source : Text
  pub category : Text
  pub layer : Text
  pub resource_type : Text
  pub risk : Text
  pub confidence : Text
  pub review_status : Text
  pub verified : Bool
  pub rewrite_state : Text
  pub cname_target : Text
  pub tracker_vendor : Text
  pub cname_confidence : Text
  pub expected_catalog : Text
  pub stub_template : Text
  pub unknown_profile : Text
  pub fallback_reason : Text
  pub redaction_mode : Text

-- `Expires` is none where it is zero.
pub record DebugScope : Type 0 where
  pub domain : Text
  pub client : Text
  pub expires : Option ℕ

pub record Options : Type 0 where
  pub redact : Bool
  pub mode : Text
  pub debug_scopes : List DebugScope
  pub catalog_metrics : Bool
  pub emit_catalog_log : Bool

pub record CatalogMetricKey : Type 0 where
  pub category : Text
  pub risk : Text
  pub verified : Text
  pub review_status : Text
  pub source_type : Text

abbrev pub same_key : CatalogMetricKey → CatalogMetricKey → Bool
same_key a b =
    text_eq a.category b.category
    && (text_eq a.risk b.risk
        && (text_eq a.verified b.verified
            && (text_eq a.review_status b.review_status && text_eq a.source_type b.source_type)))

pub same_key_iff : (a b : CatalogMetricKey) → (same_key a b ≡ true) ↔ (a ≡ b)
same_key_iff a b = ground (
  arith,
  text_eq_iff a.category b.category,
  text_eq_iff a.risk b.risk,
  text_eq_iff a.verified b.verified,
  text_eq_iff a.review_status b.review_status,
  text_eq_iff a.source_type b.source_type,
)

instance abbrev pub metric_key : Eq CatalogMetricKey
metric_key = record { beq = same_key; beq_iff = same_key_iff }

pub record Recorder : Type 0 where
  pub redact : Bool
  pub mode : Text
  pub debug_scopes : List DebugScope
  pub catalog_metrics : Bool
  pub emit_catalog_log : Bool
  pub ring : List Record
  pub next : ℕ
  pub full : Bool
  pub by_action : Dict Text ℕ
  pub by_status : Dict ℕ ℕ
  pub by_domain : Dict Text ℕ
  pub by_rule : Dict Text ℕ
  pub by_catalog : Dict Text ℕ
  pub by_catalog_class : Dict CatalogMetricKey ℕ
  pub total : ℕ
  pub bytes_total : ℕ
