-- ===== src/Managed/Items.antt =====
-- internal/aghmanaged/manager.go: the items of the rewrite feed, the lines that it has for them, and how
-- the feed differs from the one before.
use mirage_chaff.Base.{
  ℕ, ◌+◌, Bool, false, ◌||◌, List, [], ◌∷◌, ◌++◌, Option, none, some, if◌then◌else◌,
}
use mirage_chaff.Base.Text.{Text, codes, text_eq}
use mirage_chaff.Base.Sort.{text_lt, then_by}
use mirage_chaff.Base.Dict.{Dict, lookup, insert, text_key}
use mirage_chaff.Managed.Types.{Entry, Source, ManagedConfig, Ip, Manager}
use mirage_chaff.Managed.Rows.{override_of, source_ref_map, source_refs_from_map, string_in_slice}
use mirage_chaff.Managed.Sources.{is_stale_source, stale_feed_policy, policy_exclude}
use mirage_chaff.Managed.Groups.{entry_key}
use mirage_chaff.Managed.Feed.{FeedItem, feed_item}

unfoldable pub feed_snapshot_from_ids : List Text → List Text
feed_snapshot_from_ids [] = []
feed_snapshot_from_ids (id ∷ ids) =
    let rest = feed_snapshot_from_ids ids in
    if text_eq id [] || string_in_slice id rest then rest else id ∷ rest

-- How many of the set are not in the other one.
unfoldable pub count_new : List Text → List Text → ℕ
count_new prev [] = 0
count_new prev (id ∷ ids) = (if string_in_slice id prev then 0 else 1) + count_new prev ids

unfoldable pub feed_snapshot_delta : List Text → List Text → ℕ × ℕ
feed_snapshot_delta prev next_ids =
    let next = feed_snapshot_from_ids next_ids in (count_new prev next, count_new next prev)

unfoldable pub entry_less : Entry → Entry → Bool
entry_less a b = then_by a.domain b.domain (text_lt a.id b.id)

-- Whether the source of the entry is known and stale.
unfoldable pub from_stale : ℕ → Manager → Entry → Option Source
from_stale now m e = elim (lookup e.source_name m.sources) [
  | none ↦ none
  | some src ↦ if is_stale_source now src m.cfg.scheduler.stale_source_ttl then some src else none
]

unfoldable pub exclude_stale : Option Source → FeedItem → FeedItem
exclude_stale none item = item
exclude_stale (some src) item =
    if text_eq (stale_feed_policy src) policy_exclude
    then record item { included = false; reason = codes "stale source" }
    else item

-- One entry's item. `keys` are those of the conflicts.
unfoldable pub item_for :
    (Text → Option Ip) → ℕ → ManagedConfig → List Ip → List Text → Manager → Entry → FeedItem
item_for parse_ip now cfg ips keys m e =
    let item =
      feed_item parse_ip e (override_of e.id m.overrides) cfg ips
        (string_in_slice (entry_key e) keys) in
    exclude_stale (from_stale now m e) (record item {
      source_refs = source_refs_from_map (source_ref_map m.sources) item.source_ids;
    })

-- The lines of one item: each behind a comment.
unfoldable pub item_lines : FeedItem → List Text → List Text
item_lines item [] = []
item_lines item (l ∷ ls) =
    (codes "! entry_id="
      ++ (item.entry_id
          ++ (codes " source="
              ++ (elim item.source_ids [ [] ↦ [] | s ∷ more ↦ s ]
                  ++ (codes " category="
                      ++ (item.category ++ (codes " confidence=" ++ item.confidence)))))))
    ∷ l
    ∷ item_lines item ls

unfoldable pub body_of : List FeedItem → List Text
body_of [] = []
body_of (item ∷ items) = (if item.included then item_lines item item.lines else []) ++ body_of items

unfoldable pub included_ids : List FeedItem → List Text
included_ids [] = []
included_ids (item ∷ items) =
    if item.included then item.entry_id ∷ included_ids items else included_ids items

unfoldable pub mark_seen : ℕ → List Text → Dict Text ℕ → Dict Text ℕ
mark_seen now [] d = d
mark_seen now (id ∷ ids) d = mark_seen now ids (insert id now d)
