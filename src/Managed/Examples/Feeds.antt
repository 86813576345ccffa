-- ===== src/Managed/Examples/Feeds.antt =====
-- Feeds and pages of the small catalog.
use mirage_chaff.Base.{
  ◌≡◌, refl, true, false, List, [], ◌∷◌, none, some, length, if◌then◌else◌, arith, inl, inr,
}
use mirage_chaff.Base.Text.{codes, text_eq, to_lower, lower_byte}
use mirage_chaff.Base.Dict.{lookup, insert, text_key}
use mirage_chaff.Base.Int.{pos}
use mirage_chaff.Managed.Types.{Entry, Manager}
use mirage_chaff.Managed.Rows.{
  rewrite_enabled, preset_enables, nonempty, effective_config, string_in_slice,
}
use mirage_chaff.Managed.Groups.{
  conflict_row, conflict_participant, is_allow, has_reason, group_rows, participants,
  action_reasons, entry_key, domain_path_key, rewrite_action_conflict_reason, action_reason,
  effective_mirage_action,
}
use mirage_chaff.Managed.Conflicts.{
  build_conflicts, conflict_keys, conflicts_in, conflict_in, reasons_of, differ, sorted_keys,
  any_row,
}
use mirage_chaff.Managed.Feed.{
  feed_item, exclusion, new_item, item_with, rewrite_lines, rewrite_line,
}
use mirage_chaff.Managed.Feed.Consistent.{included_agree}
use mirage_chaff.Managed.Items.{item_for, from_stale, exclude_stale}
use mirage_chaff.Managed.Sources.{is_stale_source, is_remote_source}
use mirage_chaff.Managed.Overrides.{unique_strings, unique_from}
use mirage_chaff.Base.Sort.{sort_by}
use mirage_chaff.Base.Strings.{trim_space, trim_left}
use mirage_chaff.Managed.Target.{unresolved, resolves}
use mirage_chaff.Managed.Generate.{
  generate, generate_with, make_feed, auto_emergency, generate_items,
}
use mirage_chaff.Managed.Generate.Emergency.{
  EmptyFeed, generated as after_feeds, failed_target-EmptyFeed,
}
use mirage_chaff.Managed.Paging.{page, int_max}
use mirage_chaff.Managed.Paging.Cut.{first_row, overflows, rows_of, page_rows}
use mirage_chaff.Managed.Examples.{manager, config, entry_a, entry_b, hash, parse_ip}

abbrev both : List Entry
both = entry_a ∷ entry_b ∷ []

included :
    (item_for parse_ip 1 config []
      (conflict_keys (build_conflicts hash both [] config manager.sources))
      manager
      entry_a).included
    ≡ true
unfolding item_for feed_item exclusion new_item item_with rewrite_lines rewrite_line nonempty
    text_eq build_conflicts conflict_keys conflicts_in conflict_in group_rows conflict_row
    participants action_reasons reasons_of differ sorted_keys rewrite_enabled preset_enables lookup
    insert entry_key domain_path_key string_in_slice from_stale is_stale_source exclude_stale
    is_remote_source sort_by has_reason rewrite_action_conflict_reason action_reason
    effective_mirage_action is_allow conflict_participant unique_strings unique_from any_row
    trim_space trim_left to_lower lower_byte
included = refl

takes_part : conflict_participant (conflict_row [] config manager.sources entry_b) ≡ true
unfolding conflict_participant is_allow text_eq conflict_row rewrite_enabled lookup preset_enables
    nonempty
takes_part = refl

-- The two entries for one domain agree, so both are in the feed.
included_agree_example :
    (entry_a.category ≡ entry_b.category)
    × (entry_a.review_status ≡ entry_b.review_status)
    × (has_reason (conflict_row [] config manager.sources entry_a) ≡ false)
    × (is_allow (conflict_row [] config manager.sources entry_b) ≡ false)
included_agree_example =
    included_agree parse_ip hash 1 config false [] manager both entry_a entry_b (inl refl)
      (inr (inl refl)) refl refl included takes_part

generated : (generate parse_ip hash 1 none true manager).0.failure ≡ none
unfolding generate generate_with make_feed auto_emergency resolves text_eq effective_config
    generate_items
generated = refl

-- The feed resolves its target, and the resolver fails.
abbrev resolving : Manager
resolving = record manager { cfg = record config { target_mode = [] } }

asks : resolves resolving.cfg ≡ true
unfolding resolves text_eq
asks = refl

failed_target-EmptyFeed_example :
    let first = generate parse_ip hash 1 (some (unresolved [] (codes "timeout"))) true resolving in
    EmptyFeed first
    × EmptyFeed (
        generate parse_ip hash 3 none false
          (after_feeds parse_ip hash ((2, none, true) ∷ []) first.1))
failed_target-EmptyFeed_example =
    failed_target-EmptyFeed parse_ip hash 1 (codes "timeout") resolving ((2, none, true) ∷ []) 3
      none false asks refl (inl refl)

-- `?limit=9223372036854775807&offset=1`
page_rows_example : page (pos 1) (pos int_max) both ≡ (
    let start = first_row (pos 1) (length both) in
    if overflows start (pos int_max)
    then none
    else some (record {
      entries = rows_of start (pos int_max) both;
      total = length both;
      limit = pos int_max;
      offset = start;
    }))
page_rows_example = page_rows both (pos 1) (pos int_max) (omega arith)
