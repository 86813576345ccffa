-- ===== src/Server/Fallback.antt =====
-- internal/server/server.go and internal/config/config.go: what an unmatched request is given, and
-- the stub-only mode.
use mirage_chaff.Base.{
  Bool, false, not, ◌&&◌, ◌||◌, [], ◌∷◌, ◌++◌, Option, none, some, if◌then◌else◌,
}
use mirage_chaff.Base.Text.{Text, codes, text_eq, to_lower}
use mirage_chaff.Base.Strings.{has_prefix, has_suffix, contains, trim_prefix}
use mirage_chaff.Policy.Rules.{Decision, action_stub, action_forward_asis, one_of}
use mirage_chaff.RuleCatalog.{CatalogEntry, verified_stub_catalog}

pub record UnknownProfileActions : Type 0 where
  pub suspicious_domain : Text
  pub tracking_pixel : Text
  pub beacon : Text
  pub javascript : Text
  pub api_json : Text

pub record UnknownProfileConfig : Type 0 where
  pub enabled : Bool
  pub default : Text
  pub safe : UnknownProfileActions
  pub balanced : UnknownProfileActions
  pub aggressive : UnknownProfileActions

abbrev pub safe_default_stub : Text
safe_default_stub = codes "beacon-204"

unfoldable pub infer_resource_type : Text → Text
infer_resource_type path =
    let p = to_lower path in
    if has_suffix p (codes ".js")
    then codes "script"
    else if has_suffix p (codes ".gif")
        || (has_suffix p (codes ".png")
            || (has_suffix p (codes ".jpg")
                || (has_suffix p (codes ".jpeg") || contains p (codes "pixel"))))
    then codes "tracking_pixel"
    else if contains p (codes "beacon")
        || (contains p (codes "collect") || contains p (codes "ping"))
    then codes "beacon"
    else if has_suffix p (codes ".json") || contains p (codes "/api/")
    then codes "api_json"
    else codes "domain"

unfoldable pub profile_actions : UnknownProfileConfig → Text → UnknownProfileActions
profile_actions cfg profile =
    if text_eq profile (codes "balanced")
    then cfg.balanced
    else if text_eq profile (codes "aggressive")
    then cfg.aggressive
    else cfg.safe

-- The risk of the entry, empty when there is none.
abbrev pub risk_of : Option CatalogEntry → Text
risk_of none = []
risk_of (some e) = e.risk

unfoldable pub profile_directive : UnknownProfileConfig → Text → Text → Option CatalogEntry → Text
profile_directive cfg profile resource entry =
    let actions = profile_actions cfg profile in
    if text_eq (risk_of entry) (codes "high") && text_eq resource (codes "domain")
    then actions.suspicious_domain
    else if one_of resource (codes "image" ∷ codes "tracking_pixel" ∷ codes "pixel" ∷ [])
    then actions.tracking_pixel
    else if text_eq resource (codes "beacon")
    then actions.beacon
    else if one_of resource (codes "script" ∷ codes "javascript" ∷ [])
    then actions.javascript
    else if one_of resource (codes "json" ∷ codes "api_json" ∷ [])
    then actions.api_json
    else actions.suspicious_domain

-- An action and a catalog name, both empty for a directive that is not known.
unfoldable pub directive_decision : Text → Text × Text
directive_decision directive =
    if one_of directive (codes "observe" ∷ codes "forward" ∷ codes "candidate-log" ∷ [])
    then (action_forward_asis, [])
    else if has_prefix directive (codes "stub:")
    then (action_stub, trim_prefix directive (codes "stub:"))
    else ([], [])

unfoldable pub resource_of : Option CatalogEntry → Text → Text
resource_of none path = infer_resource_type path
resource_of (some e) path =
    if text_eq e.resource_type [] then infer_resource_type path else e.resource_type

-- `none` is `changed == false`.
unfoldable pub unknown_fallback :
    UnknownProfileConfig → Option CatalogEntry → Text → Option Decision
unknown_fallback cfg entry path =
    let profile = if text_eq cfg.default [] then codes "safe" else cfg.default in
    let resource = resource_of entry path in
    let directive = profile_directive cfg profile resource entry in
    let (action, catalog) = directive_decision directive in
    if not cfg.enabled || (text_eq directive [] || text_eq action [])
    then none
    else some (record {
      action = action;
      catalog = catalog;
      rule = codes "unknown:" ++ (profile ++ (codes ":" ++ resource));
      matched = false;
    })

-- `has_entry` is `cat.Get`.
unfoldable pub verified_js_stub_decision :
    (Text → Bool) → Option CatalogEntry → Text → Option Decision
verified_js_stub_decision has_entry none domain = none
verified_js_stub_decision has_entry (some e) domain = elim (verified_stub_catalog e domain) [
  | none ↦ none
  | some name ↦ some (record {
    action = action_stub;
    catalog = if has_entry name then name else safe_default_stub;
    rule = codes "catalog:" ++ e.id;
    matched = false;
  })
]

unfoldable pub stub_only_gate : Text → Decision → Option Decision
stub_only_gate mode d =
    if not (text_eq mode (codes "stub-only")) || text_eq d.action action_stub
    then none
    else some (record d {
      action = action_stub;
      catalog = if text_eq d.catalog [] then safe_default_stub else d.catalog;
    })
