-- ===== src/Server/Intercept/Examples.antt =====
-- Requests for a tracker, under rules that stub it and under rules that forward it.
use mirage_chaff.Base.{◌≡◌, refl, true, false, [], ◌∷◌, none}
use mirage_chaff.Base.Text.{Text, codes, text_eq, to_lower}
use mirage_chaff.Base.Int.{pos}
use mirage_chaff.Base.Dict.{lookup, text_key}
use mirage_chaff.Policy.Glob.{any_run, match_string, match_one, match_run}
use mirage_chaff.Policy.Rules.{
  Ruleset, action_stub, action_forward_asis, action_passthrough, match_request, decide_by,
  first_rule, asks, accepts, method_ok, one_of, trim_dot,
}
use mirage_chaff.Policy.Engine.{new_engine, decide, temp_for}
use mirage_chaff.Server.Breaker.{allow}
use mirage_chaff.Server.Fallback.{UnknownProfileActions, safe_default_stub, stub_only_gate}
use mirage_chaff.Server.Limits.{allow_request}
use mirage_chaff.Server.Intercept.{
  Settings, ServerState, Incoming, Network, handle_intercept, final_decision, gated, act,
  serve_action, forward, contacts_upstream,
}
use mirage_chaff.Server.Intercept.Upstream.{stub_only_contacts_nothing}

abbrev nothing : UnknownProfileActions
nothing = record {
  suspicious_domain = [];
  tracking_pixel = [];
  beacon = [];
  javascript = [];
  api_json = [];
}

abbrev settings : Text → Settings
settings mode = record {
  mode = mode;
  unknown_profile = record {
    enabled = false;
    default = [];
    safe = nothing;
    balanced = nothing;
    aggressive = nothing;
  };
  has_stub = λ name. true;
  rules = none;
}

-- One rule for everything, with the action and the catalog name.
abbrev one_rule : Text → Text → Ruleset
one_rule action catalog = record {
  rules =
      record {
        name = codes "all";
        priority = pos 1;
        condition = record { domain = []; path = []; method = [] };
        action = action;
        catalog = catalog;
        domain_re = any_run ∷ [];
        path_re = any_run ∷ [];
        methods = none;
      }
      ∷ [];
  default = record {
    action = action_stub;
    catalog = safe_default_stub;
    rule = [];
    matched = false;
  };
}

-- The breaker is open for `t.example` until 50.
abbrev state : Text → Text → ServerState
state action catalog = record {
  engine = new_engine (one_rule action catalog);
  breaker = record {
    threshold = 5;
    cooldown = 30;
    state = (codes "t.example", record { failures = 5; open_until = 50 }) ∷ [];
  };
  limiter = none;
}

abbrev request : Incoming
request = record { domain = codes "t.example"; path = codes "/x"; method = codes "GET" }

abbrev network : Network
network = record { forward_fails = false; mimic_serves = true }

stub_only_contacts_nothing_example :
    ((handle_intercept
        (settings (codes "stub-only"))
        (state action_forward_asis [])
        request
        network
        60).0.contacted
      ≡ false)
    × ((handle_intercept
          (settings (codes "stub-only"))
          (state action_forward_asis [])
          request
          network
          60).1.breaker
        ≡ (state action_forward_asis []).breaker)
stub_only_contacts_nothing_example =
    stub_only_contacts_nothing (settings (codes "stub-only")) (state action_forward_asis []) request
      network 60 refl

stubbed :
    (decide
      (state action_stub (codes "gif")).engine
      (codes "t.example")
      (codes "/x")
      (codes "GET")
      60).0
    ≡ record { action = action_stub; catalog = codes "gif"; rule = codes "all"; matched = true }
unfolding decide temp_for new_engine lookup match_request decide_by first_rule asks accepts
    method_ok match_string match_one match_run to_lower trim_dot text_eq
stubbed = refl

refused : (allow (state action_passthrough []).breaker (codes "t.example") 40).0 ≡ false
unfolding allow lookup text_eq
refused = refl

contacted :
    (handle_intercept (settings []) (state action_passthrough []) request network 40).0.contacted
    ≡ true
unfolding handle_intercept act serve_action forward contacts_upstream final_decision gated
    stub_only_gate allow_request one_of text_eq decide temp_for new_engine lookup match_request
    decide_by first_rule asks accepts method_ok match_string match_one match_run to_lower trim_dot
contacted = refl
