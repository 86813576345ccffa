-- ===== src/Policy/Examples.antt =====
-- A directory of two documents, a request of each kind, and the aggregator at work.
use mirage_chaff.Base.{
  ℕ, ◌≡◌, ◌↔◌, refl, true, false, List, [], ◌∷◌, Option, none, some, if◌then◌else◌,
}
use mirage_chaff.Base.Text.{Text, codes, text_eq}
use mirage_chaff.Base.Int.{pos}
use mirage_chaff.Policy.Glob.{match_string, compile_glob}
use mirage_chaff.Policy.Rules.{
  RuleSource, Rule, Ruleset, is, compile, asks, match_request, action_stub, action_passthrough,
  one_of,
}
use mirage_chaff.Policy.Load.{PolicyFile, Entry, entries, load, load_file}
use mirage_chaff.Policy.Load.Accepts.{asks_iff, RuleApplies}
use mirage_chaff.Policy.Load.Decide.{Answer, loaded-Answer}
use mirage_chaff.Policy.Aggregator.{new_aggregator}
use mirage_chaff.Policy.Aggregator.Refines.{records, sees, IsValid, aggregator_lru}
use mirage_chaff.Policy.Aggregator.Elements.{values}
use mirage_chaff.Base.Text.{to_lower, lower_byte, to_upper, upper_byte}
use mirage_chaff.Policy.Glob.{match_one, match_run, atoms, atom}
use mirage_chaff.Policy.Rules.{
  valid_action, method_set, sort_rules, insert_rule, decide_by, first_rule, accepts, method_ok,
  trim_dot,
}
use mirage_chaff.Policy.Load.{
  load_entries, load_document, load_rules, load_default, is_yaml, last_dot, or_empty,
}

abbrev ads : RuleSource
ads = record {
  name = codes "ads";
  priority = pos 10;
  condition = record { domain = codes "*.ads.example"; path = []; method = codes "get" ∷ [] };
  action = action_stub;
  catalog = codes "gif";
}

abbrev banks : RuleSource
banks = record {
  name = codes "banks";
  priority = pos 1;
  condition = record { domain = codes "bank?.example"; path = codes "/*"; method = [] };
  action = action_passthrough;
  catalog = [];
}

-- A decoder that knows two documents.
abbrev decode : Text → Option PolicyFile
decode raw =
    if text_eq raw (codes "1")
    then some (record { rules = ads ∷ []; default = none })
    else if text_eq raw (codes "2")
    then some (record { rules = banks ∷ []; default = none })
    else none

abbrev dir : List Entry
dir =
    record { name = codes "10-ads.yaml"; is_dir = false; raw = some (codes "1") }
    ∷ record { name = codes "README"; is_dir = false; raw = none }
    ∷ record { name = codes "20-banks.YML"; is_dir = false; raw = some (codes "2") }
    ∷ []

-- A rule with its compiled fields.
abbrev with_fields : RuleSource → Option (List Text) → Rule
with_fields r methods = record {
  name = r.name;
  priority = r.priority;
  condition = r.condition;
  action = r.action;
  catalog = r.catalog;
  domain_re = compile_glob r.condition.domain;
  path_re = compile_glob r.condition.path;
  methods = methods;
}

abbrev ads_rule : Rule
ads_rule = with_fields ads (some (codes "GET" ∷ []))

abbrev rules : Ruleset
rules = record {
  rules = with_fields banks none ∷ ads_rule ∷ [];
  default = record {
    action = action_stub;
    catalog = codes "beacon-204";
    rule = [];
    matched = false;
  };
}

load-dir : load decode (entries dir) ≡ is rules
unfolding load load_entries load_file load_document load_rules load_default is_yaml last_dot
    or_empty to_lower lower_byte compile valid_action one_of text_eq method_set to_upper upper_byte
    sort_rules insert_rule
load-dir = refl

compile-ads : compile ads ≡ is ads_rule
unfolding compile valid_action one_of text_eq method_set to_upper upper_byte
compile-ads = refl

abbrev site : Text
site = codes "Www.Ads.Example."

-- The request is matched by the stub rule.
match_site : (match_request rules site (codes "/x") (codes "get")).rule ≡ codes "ads"
unfolding match_request decide_by first_rule asks accepts method_ok one_of text_eq trim_dot to_lower
    lower_byte to_upper upper_byte match_string match_one match_run compile_glob atoms atom
match_site = refl

loaded-Answer_example : Answer decode (entries dir) rules site (codes "/x") (codes "get")
loaded-Answer_example =
    loaded-Answer decode (entries dir) rules site (codes "/x") (codes "get") load-dir

asks_iff_example :
    (asks site (codes "/x") (codes "get") ads_rule ≡ true)
    ↔ RuleApplies ads.condition site (codes "/x") (codes "get")
asks_iff_example = asks_iff ads ads_rule site (codes "/x") (codes "get") compile-ads

-- Three requests for two pairs, in a list of one.
abbrev seen : List (Text × Text × ℕ)
seen = (codes "a", codes "/", 1) ∷ (codes "b", codes "/", 2) ∷ (codes "b", codes "/", 3) ∷ []

aggregator_lru_example :
    (values (records (new_aggregator 1) seen).ll ≡ sees 1 seen [])
    × IsValid (records (new_aggregator 1) seen)
aggregator_lru_example = aggregator_lru 1 seen
