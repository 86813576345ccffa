-- ===== src/Managed/Feed/Included.antt =====
-- Which entries an item of the feed includes.
use mirage_chaff.Base.{
  ◌↔◌, ◌≡◌, refl, Bool, true, false, ◌||◌, List, [], Option, none, Option-cases, inl, inr, arith,
}
use mirage_chaff.Base.Text.{Text, text_eq}
use mirage_chaff.Managed.Types.{
  Entry, CatalogOverride, ManagedConfig, Ip, allow_exception, layer_dns, layer_dom, review_rejected,
  review_disabled,
}
use mirage_chaff.Managed.Rows.{rewrite_enabled}
use mirage_chaff.Managed.Feed.{
  Lines, no_lines, lines, exclusion, new_item, item_with, feed_item, rewrite_lines,
}

-- What an entry needs for a rewrite.
pub record IsRewritable (e : Entry) (conflict enabled : Bool) : Type 0 where
  pub has_domain : text_eq e.domain [] ≡ false
  pub is_supported : e.unsupported ≡ false
  pub not_dom : text_eq e.layer layer_dom ≡ false
  pub for_dns : (text_eq e.layer [] || text_eq e.layer layer_dns) ≡ true
  pub no_path : text_eq e.path [] ≡ true
  pub no_exception : text_eq e.category allow_exception ≡ false
  pub no_conflict : conflict ≡ false
  pub not_rejected : text_eq e.review_status review_rejected ≡ false
  pub not_disabled : text_eq e.review_status review_disabled ≡ false
  pub is_enabled : enabled ≡ true

pub exclusion-none :
    (e : Entry) (conflict enabled : Bool)
    → exclusion e conflict enabled ≡ none
    → IsRewritable e conflict enabled
unfolding exclusion
exclusion-none e conflict enabled h = ground arith

IsRewritable-exclusion :
    (e : Entry) (conflict enabled : Bool)
    → IsRewritable e conflict enabled
    → exclusion e conflict enabled ≡ none
unfolding exclusion
IsRewritable-exclusion e conflict enabled r = ground arith

item_with-included :
    (e : Entry) (enabled : Bool) (l : Lines)
    → (item_with e enabled l).included ≡ true
    → (ls : List Text) × (l ≡ lines ls)
unfolding item_with new_item
item_with-included e enabled (no_lines problem) h = absurd cc
item_with-included e enabled (lines ls) h = (ls, refl)

-- Which lines the feed can have for an entry.
abbrev pub HasLines : (Text → Option Ip) → Entry → ManagedConfig → List Ip → Type 0
HasLines parse_ip e cfg ips =
    (ls : List Text) × (rewrite_lines parse_ip e.domain cfg ips ≡ lines ls)

module _ (parse_ip : Text → Option Ip) (e : Entry) (ov : CatalogOverride) (cfg : ManagedConfig)
    (ips : List Ip) (conflict : Bool) where
  included-IsRewritable :
      (feed_item parse_ip e ov cfg ips conflict).included ≡ true
      → IsRewritable e conflict (rewrite_enabled e ov cfg) × HasLines parse_ip e cfg ips
  unfolding feed_item new_item
  included-IsRewritable h = elim (Option-cases (exclusion e conflict (rewrite_enabled e ov cfg))) [
    | inl q ↦ (
      exclusion-none e conflict (rewrite_enabled e ov cfg) q,
      item_with-included e (rewrite_enabled e ov cfg) (rewrite_lines parse_ip e.domain cfg ips)
          (rw (q, feed_item) at h),
    )
    | inr (reason, q) ↦ absurd (cc (rw (q, feed_item) at h))
  ]

  -- An entry is included exactly when it has a domain, is a supported rule of the DNS layer with no
  -- path, is no allow exception, has no open conflict, is neither rejected nor disabled, is enabled,
  -- and the target gives it lines.
  pub feed_item_iff :
      ((feed_item parse_ip e ov cfg ips conflict).included ≡ true)
      ↔ (IsRewritable e conflict (rewrite_enabled e ov cfg) × HasLines parse_ip e cfg ips)
  unfolding feed_item item_with new_item
  feed_item_iff = (
    included-IsRewritable,
    λ (r, (ls, q)).
        rw (IsRewritable-exclusion e conflict (rewrite_enabled e ov cfg) r, feed_item, q),
  )
