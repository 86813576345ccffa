-- ===== src/Managed/Feed/Consistent.antt =====
-- The entries of one domain that the feed includes do not contradict each other.
use mirage_chaff.Base.{
  ℕ, ◌≡◌, subst, Bool, true, false, List, Option, none, some, Bool-cases, inl, inr, arith,
}
use mirage_chaff.Base.Text.{Text, text_eq}
use mirage_chaff.Base.Members.{In}
use mirage_chaff.Managed.Types.{Entry, Source, ManagedConfig, Ip, Manager, allow_exception}
use mirage_chaff.Managed.Rows.{
  CatalogRow, rewrite_enabled, override_of, string_in_slice, source_refs_from_map, source_ref_map,
}
use mirage_chaff.Managed.Groups.{
  entry_key, conflict_row, conflict_participant, is_allow, has_reason,
}
use mirage_chaff.Managed.Conflicts.{build_conflicts, conflict_keys}
use mirage_chaff.Managed.Conflicts.Flagged.{unflagged-Agree}
use mirage_chaff.Managed.Feed.{FeedItem, feed_item}
use mirage_chaff.Managed.Feed.Included.{feed_item_iff}
use mirage_chaff.Managed.Sources.{stale_feed_policy, policy_exclude}
use mirage_chaff.Managed.Items.{item_for, from_stale, exclude_stale}

exclude_stale-included :
    (s : Option Source) (item : FeedItem)
    → (exclude_stale s item).included ≡ true
    → item.included ≡ true
unfolding exclude_stale
exclude_stale-included none item h = h
exclude_stale-included (some src) item h =
    elim (Bool-cases (text_eq (stale_feed_policy src) policy_exclude)) [
      | inl q ↦ absurd (cc (rw (q, exclude_stale) at h))
      | inr q ↦ rw (q, exclude_stale) at h
    ]

module _ (parse_ip : Text → Option Ip) (hash : Text → Text) (now : ℕ) (cfg : ManagedConfig)
    (emergency : Bool) (ips : List Ip) (m : Manager) (es : List Entry) where
  -- The keys that the feed takes for conflicts.
  abbrev keys : List Text
  keys = conflict_keys (build_conflicts hash es m.overrides cfg m.sources)

  -- The configuration that the items are made with.
  abbrev item_cfg : ManagedConfig
  item_cfg = record cfg { emergency_empty = emergency }

  abbrev row : Entry → CatalogRow
  row e = conflict_row m.overrides cfg m.sources e

  -- Where the feed includes an entry, its mirage action is neither missing nor unsafe, and no other
  -- entry of the same domain and path that is enabled or an allow exception differs from it in
  -- category or review status; so none of them is an allow exception.
  pub included_agree :
      (e e' : Entry)
      → In e es
      → In e' es
      → e'.domain ≡ e.domain
      → e'.path ≡ e.path
      → (item_for parse_ip now item_cfg ips keys m e).included ≡ true
      → conflict_participant (row e') ≡ true
      → (e.category ≡ e'.category)
        × (e.review_status ≡ e'.review_status)
        × (has_reason (row e) ≡ false)
        × (is_allow (row e') ≡ false)
  unfolding item_for rewrite_enabled conflict_row is_allow conflict_participant
  included_agree e e' i i' d p h q =
      let ov = override_of e.id m.overrides in
      let flag = string_in_slice (entry_key e) keys in
      let item = feed_item parse_ip e ov item_cfg ips flag in
      let kept : item.included ≡ true =
        exclude_stale-included (from_stale now m e)
          (record item {
            source_refs = source_refs_from_map (source_ref_map m.sources) item.source_ids;
          })
          h in
      let (r, has_lines) = (feed_item_iff parse_ip e ov item_cfg ips flag).0 kept in
      let mine : conflict_participant (row e) ≡ true = ground (arith, r.is_enabled) in
      let agreed =
        unflagged-Agree hash m.overrides cfg m.sources es e e' r.no_conflict r.has_domain i i' d p
          mine q in
      (
        agreed.0,
        agreed.1,
        agreed.2,
        subst (λ c. text_eq c allow_exception ≡ false) agreed.0 r.no_exception,
      )
