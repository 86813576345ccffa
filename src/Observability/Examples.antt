-- ===== src/Observability/Examples.antt =====
-- A recorder with two places, and two seconds of traffic.
use mirage_chaff.Base.{◌≡◌, refl, ℕ, true, false, List, [], ◌∷◌, ◌++◌, All, arith}
use mirage_chaff.Base.Text.{Text, codes, text_eq}
use mirage_chaff.Base.Dict.{text_key, nat_key}
use mirage_chaff.Managed.Rows.{nonempty}
use mirage_chaff.Observability.Records.{Record, Options, Recorder}
use mirage_chaff.Observability.Redact.{has_byte, redact_url}
use mirage_chaff.Observability.Redact.Query.{joined, Shown, redact_url-query}
use mirage_chaff.Observability.Recorder.{
  no_record, new_recorder_with_options, snapshot, snapshot_since, shown, last_of, set_options,
}
use mirage_chaff.Observability.Modes.{mode_stats}
use mirage_chaff.Observability.Recorder.Ring.{log_all, stored, snapshot-log_all}
use mirage_chaff.Observability.Recorder.Stream.{
  traffic_stream, logged_records, traffic_stream-logged_records,
}
use mirage_chaff.Observability.Recorder.Hidden.{HasNoPath, hides, snapshot-HasNoPath}

abbrev request : Text → Record
request path = record no_record {
  domain = codes "a.example";
  path = path;
  action = codes "stub";
  status = 200;
  bytes = 7;
}

abbrev redacting : Options
redacting = record {
  redact = true;
  mode = [];
  debug_scopes = [];
  catalog_metrics = false;
  emit_catalog_log = false;
}

abbrev requests : List (ℕ × Record)
requests =
    (1, request (codes "/a?x=1")) ∷ (2, request (codes "/b")) ∷ (3, request (codes "/c")) ∷ []

abbrev ticks : List (List (ℕ × Record) × ℕ)
ticks = ((4, request (codes "/d")) ∷ (4, request (codes "/e")) ∷ [], 5) ∷ ([], 6) ∷ []

abbrev new : Recorder
new = new_recorder_with_options redacting 2

snapshot-log_all_example :
    snapshot 9 0 (log_all requests new) ≡ shown 9 new (last_of 2 (stored new requests))
snapshot-log_all_example = snapshot-log_all redacting 2 requests 9

traffic_stream-logged_records_example :
    traffic_stream ticks (log_all requests new).total (log_all requests new)
    ≡ logged_records (log_all requests new) ticks
traffic_stream-logged_records_example =
    traffic_stream-logged_records redacting 2 requests ticks (omega arith, (omega arith, tt))

abbrev stats : Recorder
stats = set_options (record redacting { mode = mode_stats }) (log_all requests new)

stats-hides : hides stats ≡ true
unfolding set_options nonempty text_eq
stats-hides = refl

snapshot-HasNoPath_example :
    All HasNoPath (snapshot 9 0 stats) × All HasNoPath (snapshot_since 9 1 stats).0
snapshot-HasNoPath_example = snapshot-HasNoPath 9 0 1 stats stats-hides

path_plain : has_byte b'?' (codes "/a") ≡ false
unfolding has_byte
path_plain = refl

-- `/a?id=x%20y&a=`
redact_url-query_example :
    (parts : List Text) × (shown : Text) × (codes "id=x%20y&a=" ≡ joined b'&' parts)
    × All (λ p. has_byte b'&' p ≡ false) parts
    × (redact_url (codes "/a" ++ b'?' ∷ codes "id=x%20y&a=") ≡ codes "/a" ++ b'?' ∷ shown)
    × Shown parts shown
redact_url-query_example = redact_url-query (codes "/a") (codes "id=x%20y&a=") path_plain
