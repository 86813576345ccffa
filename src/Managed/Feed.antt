-- ===== src/Managed/Feed.antt =====
-- internal/aghmanaged/manager.go: which entries the rewrite feed includes, and the lines it has for
-- them. `net.ParseIP` is a parameter.
pub mod Included
pub mod Consistent
use mirage_chaff.Base.{
  Bool, true, false, not, ◌&&◌, ◌||◌, List, [], ◌∷◌, ◌++◌, map, Option, none, some, if◌then◌else◌,
}
use mirage_chaff.Base.Text.{Text, codes, text_eq}
use mirage_chaff.Managed.Types.{
  Entry, CatalogOverride, ManagedConfig, Ip, review_rejected, review_disabled, layer_dns, layer_dom,
  allow_exception,
}
use mirage_chaff.Managed.Rows.{SourceRef, rewrite_enabled, nonempty}

pub record FeedItem : Type 0 where
  pub domain : Text
  pub entry_id : Text
  pub source_ids : List Text
  pub source_refs : List SourceRef
  pub category : Text
  pub resource_type : Text
  pub review_status : Text
  pub confidence : Text
  pub rewrite_enabled : Bool
  pub included : Bool
  pub reason : Text
  pub lines : List Text

pub data Lines : Type 0 where
  no_lines : Text → Lines
  lines : List Text → Lines

abbrev pub resolved_ip : Text
resolved_ip = codes "resolved_ip"

-- `||domain^$dnsrewrite=NOERROR;KIND;VALUE`
unfoldable pub rewrite_line : Text → Text → Text → Text
rewrite_line domain kind value =
    codes "||" ++ (domain ++ (codes "^$dnsrewrite=NOERROR;" ++ (kind ++ (codes ";" ++ value))))

unfoldable pub ip_line : Text → Ip → Text
ip_line domain ip = rewrite_line domain (if ip.is_v4 then codes "A" else codes "AAAA") ip.text

-- The lines for the configured addresses of one family.
unfoldable pub static_lines : (Text → Option Ip) → Bool → Text → List Text → List Text
static_lines parse_ip v4 domain [] = []
static_lines parse_ip v4 domain (raw ∷ raws) = elim (parse_ip raw) [
  | none ↦ static_lines parse_ip v4 domain raws
  | some ip ↦
      (if (v4 && ip.is_v4) || (not v4 && not ip.is_v4) then ip_line domain ip ∷ [] else [])
      ++ static_lines parse_ip v4 domain raws
]

unfoldable pub some_lines : Text → List Text → Lines
some_lines problem [] = no_lines problem
some_lines problem (l ∷ ls) = lines (l ∷ ls)

unfoldable pub rewrite_lines : (Text → Option Ip) → Text → ManagedConfig → List Ip → Lines
rewrite_lines parse_ip domain cfg ips =
    let mode = nonempty cfg.target_mode resolved_ip in
    if text_eq mode (codes "cname")
    then if text_eq cfg.target_name []
      then no_lines (codes "target_name required")
      else lines (rewrite_line domain (codes "CNAME") cfg.target_name ∷ [])
    else if text_eq mode (codes "static_ip")
    then some_lines (codes "no static IPs") (
        static_lines parse_ip true domain cfg.static_ipv4
        ++ static_lines parse_ip false domain cfg.static_ipv6)
    else some_lines (codes "target resolution failed") (map (ip_line domain) ips)

-- The reasons that exclude an entry before its lines are asked for.
unfoldable pub exclusion : Entry → Bool → Bool → Option Text
exclusion e conflict enabled =
    if text_eq e.domain []
    then some (codes "empty domain")
    else if e.unsupported || text_eq e.layer layer_dom
    then some (codes "unsupported layer")
    else if not (text_eq e.layer []) && not (text_eq e.layer layer_dns)
    then some (codes "http layer")
    else if not (text_eq e.path [])
    then some (codes "path scoped rule")
    else if text_eq e.category allow_exception
    then some (codes "allow exception")
    else if conflict
    then some (codes "conflict unresolved")
    else if text_eq e.review_status review_rejected || text_eq e.review_status review_disabled
    then some (codes "rejected or disabled")
    else if not enabled
    then some (codes "disabled by preset or user")
    else none

-- The item of an entry, excluded for a reason or included with its lines.
unfoldable pub new_item : Entry → Bool → Bool → Text → List Text → FeedItem
new_item e enabled included reason ls = record {
  domain = e.domain;
  entry_id = e.id;
  source_ids = e.source_name ∷ [];
  source_refs = [];
  category = e.category;
  resource_type = e.resource_type;
  review_status = e.review_status;
  confidence = e.confidence;
  rewrite_enabled = enabled;
  included = included;
  reason = reason;
  lines = ls;
}

unfoldable pub item_with : Entry → Bool → Lines → FeedItem
item_with e enabled (no_lines problem) = new_item e enabled false problem []
item_with e enabled (lines ls) = new_item e enabled true (codes "included") ls

unfoldable pub feed_item :
    (Text → Option Ip) → Entry → CatalogOverride → ManagedConfig → List Ip → Bool → FeedItem
feed_item parse_ip e ov cfg ips conflict =
    let enabled = rewrite_enabled e ov cfg in
    elim (exclusion e conflict enabled) [
      | some reason ↦ new_item e enabled false reason []
      | none ↦ item_with e enabled (rewrite_lines parse_ip e.domain cfg ips)
    ]
