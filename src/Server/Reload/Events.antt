-- ===== src/Server/Reload/Events.antt =====
-- internal/server/server.go: the server at work, as a sequence of reloads, requests, and the
-- administration's temporary overrides.
use mirage_chaff.Base.{
  ℕ, Bool, ◌≡◌, refl, subst, sym, List, [], ◌∷◌, Option, some, Bool-cases, inl, inr,
}
use mirage_chaff.Base.Text.{Text}
use mirage_chaff.Policy.Rules.{is, one_of, match_request}
use mirage_chaff.Policy.Load.{PolicyFile}
use mirage_chaff.Policy.Engine.{add_temp_rule, temp_rules}
use mirage_chaff.Policy.Engine.Overrides.{decide-rules}
use mirage_chaff.Managed.Types.{Ip}
use mirage_chaff.Managed.Stored.{StateFile}
use mirage_chaff.Server.Limits.{allow_request}
use mirage_chaff.Server.Intercept.{
  Settings, ServerState, Incoming, Network, Served, handle_intercept,
}
use mirage_chaff.Server.Process.{Process, Reading, start}
use mirage_chaff.Server.Reload.{reload}
use mirage_chaff.Server.Reload.Ready.{Ready, reload-Ready, start-Ready}
use mirage_chaff.Server.Reload.Refs.{Known}

-- The fields of the server that `handleIntercept` reads.
abbrev pub settings_of : Process → Settings
settings_of p = record {
  mode = p.cfg.mode;
  unknown_profile = p.cfg.unknown_profile;
  has_stub = λ name. one_of name p.catalog;
  rules = some p.rules.rules;
}

abbrev pub live_state : Process → ServerState
live_state p = record { engine = p.engine; breaker = p.breaker; limiter = p.limiter }

unfoldable pub serve_request : Incoming → Network → ℕ → Process → Served × Process
serve_request r w now p =
    let (served, s) = handle_intercept (settings_of p) (live_state p) r w now in
    (served, record p { engine = s.engine; breaker = s.breaker; limiter = s.limiter })

pub data Event : Type 0 where
  reloads : Reading → ℕ → Event
  requests : Incoming → Network → ℕ → Event
  overrides : Text → Text → Text → ℕ → ℕ → Event
  lists_overrides : ℕ → Event

module _ (parse : Text → Option PolicyFile) (parse_ip : Text → Option Ip)
    (is_duration : Text → Bool) (duration : Text → Option ℕ) where
  unfoldable pub happen : Event → Process → Process
  happen (reloads r now) p = reload parse parse_ip is_duration duration r now p
  happen (requests r w now) p = (serve_request r w now p).1
  happen (overrides domain action catalog ttl now) p = record p {
    engine = add_temp_rule p.engine domain action catalog ttl now;
  }
  happen (lists_overrides now) p = record p { engine = (temp_rules p.engine now).1 }

  unfoldable pub happen_all : List Event → Process → Process
  happen_all [] p = p
  happen_all (e ∷ es) p = happen_all es (happen e p)

  handle_intercept-rules :
      (c : Settings) (s : ServerState) (r : Incoming) (w : Network) (now : ℕ)
      → (handle_intercept c s r w now).1.engine.rs ≡ s.engine.rs
  unfolding handle_intercept
  handle_intercept-rules c s r w now = elim (Bool-cases (allow_request s.limiter now).0) [
    | inr n ↦ rw (handle_intercept, n) refl
    | inl y ↦ rw (handle_intercept, y) (decide-rules s.engine r.domain r.path r.method now)
  ]

  happen-Ready :
      (e : Event) (p : Process)
      → Ready parse parse_ip is_duration duration p
      → Ready parse parse_ip is_duration duration (happen e p)
  unfolding happen serve_request add_temp_rule temp_rules
  happen-Ready (reloads r now) p h = reload-Ready parse parse_ip is_duration duration r now p h
  happen-Ready (overrides domain action catalog ttl now) p h = record {
    config_ok = h.config_ok;
    known = h.known;
    resolver_ok = h.resolver_ok;
    forwarder_ok = h.forwarder_ok;
  }
  happen-Ready (lists_overrides now) p h = record {
    config_ok = h.config_ok;
    known = h.known;
    resolver_ok = h.resolver_ok;
    forwarder_ok = h.forwarder_ok;
  }
  happen-Ready (requests r w now) p h = record {
    config_ok = h.config_ok;
    known = λ domain path method.
        subst (λ rs. Known p.catalog (match_request rs domain path method))
          (sym (handle_intercept-rules (settings_of p) (live_state p) r w now))
          (h.known domain path method);
    resolver_ok = h.resolver_ok;
    forwarder_ok = h.forwarder_ok;
  }

  happen_all-Ready :
      (es : List Event) (p : Process)
      → Ready parse parse_ip is_duration duration p
      → Ready parse parse_ip is_duration duration (happen_all es p)
  unfolding happen_all
  happen_all-Ready [] p h = h
  happen_all-Ready (e ∷ es) p h = happen_all-Ready es (happen e p) (happen-Ready e p h)

  -- A server that started stays fit for use through any reloads, whatever they read, requests and
  -- temporary overrides: its configuration would pass `Check`, a stub decision of its rules names an
  -- entry of its catalog or is that of a default without a name, and its forwarder asks the resolvers of its
  -- configuration.
  pub happen_all-fit :
      (state : StateFile) (r : Reading) (now : ℕ) (p : Process) (es : List Event)
      → start duration parse parse_ip is_duration state r now ≡ is p
      → Ready parse parse_ip is_duration duration (happen_all es p)
  happen_all-fit state r now p es h =
      happen_all-Ready es p (start-Ready parse parse_ip is_duration duration state r now p h)
