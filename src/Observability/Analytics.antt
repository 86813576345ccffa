-- ===== src/Observability/Analytics.antt =====
-- internal/observability/record.go: the summaries of the counters.
use mirage_chaff.Base.{
  ℕ, ◌+◌, Bool, not, ◌&&◌, List, [], ◌∷◌, length, take, ltb, leb, ◌==◌, if◌then◌else◌,
}
use mirage_chaff.Base.Text.{Text, codes}
use mirage_chaff.Base.Sort.{sort_by, text_lt}
use mirage_chaff.Base.Dict.{Dict, lookup, insert, text_key, nat_key}
use mirage_chaff.Managed.Types.{or_else}
use mirage_chaff.Observability.Records.{metric_key, Recorder}

unfoldable pub status_class : ℕ → Text
status_class code =
    if leb 200 code && ltb code 300
    then codes "2xx"
    else if leb 300 code && ltb code 400
    then codes "3xx"
    else if leb 400 code && ltb code 500
    then codes "4xx"
    else if leb 500 code
    then codes "5xx"
    else codes "other"

-- The classes that `WriteMetrics` sums up.
unfoldable pub add_class : ℕ × ℕ → Dict Text ℕ → Dict Text ℕ
add_class (code, n) d = insert (status_class code) (or_else (lookup (status_class code) d) 0 + n) d

unfoldable pub classes_of : Dict ℕ ℕ → Dict Text ℕ
classes_of [] = []
classes_of (e ∷ es) = add_class e (classes_of es)

-- The order of `topStringMap`.
unfoldable pub more_often : Text × ℕ → Text × ℕ → Bool
more_often (k, n) (j, i) = if n == i then text_lt k j else ltb i n

unfoldable pub top_string_map : ℕ → Dict Text ℕ → List (Text × ℕ)
top_string_map n d =
    let sorted = sort_by more_often d in
    if not (n == 0) && ltb n (length sorted) then take n sorted else sorted

pub record Analytics : Type 0 where
  pub total : ℕ
  pub bytes : ℕ
  pub log_mode : Text
  pub by_action : Dict Text ℕ
  pub top_domains : List (Text × ℕ)
  pub top_rules : List (Text × ℕ)
  pub top_catalog : List (Text × ℕ)

unfoldable pub analytics : Recorder → Analytics
analytics r = record {
  total = r.total;
  bytes = r.bytes_total;
  log_mode = r.mode;
  by_action = r.by_action;
  top_domains = top_string_map 50 r.by_domain;
  top_rules = top_string_map 50 r.by_rule;
  top_catalog = top_string_map 50 r.by_catalog;
}
