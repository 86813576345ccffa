-- ===== src/Server/Routing.antt =====
-- internal/server/server.go: `route`, which looks at a new TLS connection's first bytes before the
-- server terminates TLS, and `doPassthrough`. A connection is the bytes that it will still deliver, from
-- the start on what the peek has read.
pub mod Names
mod Examples
use mirage_chaff.Base.{
  ℕ, Bool, true, false, not, ◌&&◌, List, [], ◌∷◌, ◌++◌, Option, none, some, if◌then◌else◌,
}
use mirage_chaff.Base.Scan.{Scan, ok, ◌>>=◌}
use mirage_chaff.Base.Text.{Text, codes, text_eq}
use mirage_chaff.Policy.Rules.{Ruleset, action_passthrough, match_request}
use mirage_chaff.Passthrough.Peek.{Peeked, peek_client_hello}
use mirage_chaff.Observability.Records.{Record, Recorder}
use mirage_chaff.Observability.Recorder.{log, no_record}

-- Spliced to the origin of a name, or delivered to `Accept` for the termination of TLS.
pub data Route : Type 0 where
  spliced : Text → List ℕ → Route
  delivered : List ℕ → Route

abbrev pub no_error : {A : Type 0} → Option A → Bool
no_error none = true
no_error (some e) = false

unfoldable pub passes : Ruleset → Text → Bool
passes rs sni = text_eq (match_request rs sni [] []).action action_passthrough

-- Behind the peek.
unfoldable pub route_peeked : Ruleset → Peeked → Text → Route
route_peeked rs p sni =
    if no_error p.error && not (text_eq sni []) && passes rs sni
    then spliced sni (p.replay ++ p.unread)
    else delivered (p.replay ++ p.unread)

unfoldable pub route : Ruleset → List ℕ → Scan Route
route rs conn = let p = peek_client_hello conn in p.sni >>= λ sni. ok (route_peeked rs p sni)

-- What `doPassthrough` logs behind the splice, whether it failed or not.
unfoldable pub passthrough_record : ℕ → Text → Record
passthrough_record now sni = record no_record {
  time = now;
  domain = sni;
  method = codes "CONNECT";
  action = action_passthrough;
}

unfoldable pub log_route : ℕ → Route → Recorder → Recorder
log_route now (spliced sni bytes) r = log now (passthrough_record now sni) r
log_route now (delivered bytes) r = r
