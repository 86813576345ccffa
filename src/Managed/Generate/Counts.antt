-- ===== src/Managed/Generate/Counts.antt =====
-- What a generation counts, and what it leaves alone.
use mirage_chaff.Base.{
  ℕ, ◌+◌, ◌≤◌, ◌≡◌, refl, ap, Bool, true, false, not, ◌&&◌, ◌||◌, List, [], ◌∷◌, map, Option, none,
  length, if◌then◌else◌, arith, ◌∙◌,
}
use mirage_chaff.Base.Text.{Text}
use mirage_chaff.Base.Members.{length-map, length-sort_by}
use mirage_chaff.Base.Sort.{sort_by}
use mirage_chaff.Managed.Types.{Entry, ManagedConfig, Ip, Manager}
use mirage_chaff.Managed.Rows.{effective_config, apply_override}
use mirage_chaff.Managed.Conflicts.{Conflict, applied_entries, build_conflicts, conflict_keys}
use mirage_chaff.Managed.Feed.{FeedItem}
use mirage_chaff.Managed.Items.{entry_less, item_for, included_ids}
use mirage_chaff.Managed.Target.{Target, Resolved, resolves, no_ips, choose_target}
use mirage_chaff.Managed.Settings.{set_emergency_empty}
use mirage_chaff.Managed.Generate.Frame.{
  SameCatalog, SameFeed, SameCatalog-trans, SameFeed-trans, make_feed-SameCatalog,
  make_feed-SameFeed, choose_target-Same, emergency-SameCatalog, emergency-SameFeed,
  auto_emergency-preview,
}
use mirage_chaff.Managed.Generate.{
  FeedStatus, first_status, auto_emergency, generate_empty, generate_items, make_feed,
  generate_with, generate,
}

included_ids-le : (items : List FeedItem) → length (included_ids items) ≤ length items
unfolding included_ids
included_ids-le [] = omega arith
included_ids-le (item ∷ items) = ground (arith, included_ids-le items)

-- Every entry is either included or excluded.
abbrev pub AllCounted : ℕ → FeedStatus → Type 0
AllCounted n status = status.item_count + status.excluded_count ≡ n

make_feed-AllCounted :
    (empty no_target : Bool) (parse_ip : Text → Option Ip) (status : FeedStatus)
    (cfg : ManagedConfig) (t : Target) (keys : List Text) (entries : List Entry) (now : ℕ)
    (recorded : Bool) (m : Manager)
    → (let r = make_feed empty no_target parse_ip status cfg t keys entries now recorded m in
        status.item_count ≡ 0 → r.0.failure ≡ none → AllCounted (length entries) r.0.status)
unfolding make_feed generate_empty generate_items
make_feed-AllCounted true no_target parse_ip status cfg t keys entries now recorded m z h =
    omega arith
make_feed-AllCounted false true parse_ip status cfg t keys entries now recorded m z h = absurd cc
make_feed-AllCounted false false parse_ip status cfg t keys entries now recorded m z h =
    let sorted = sort_by entry_less entries in
    let items = map (item_for parse_ip now cfg t.ips keys m) sorted in
    omega (
      arith,
      included_ids-le items,
      length-map (item_for parse_ip now cfg t.ips keys m) sorted,
      length-sort_by entry_less entries,
    )

module _ (parse_ip : Text → Option Ip) (hash : Text → Text) (cfg : ManagedConfig) (t : Target)
    (now : ℕ) (m : Manager) where
  abbrev entries : List Entry
  entries = applied_entries m.overrides m.entries

  abbrev conflicts : List Conflict
  conflicts = build_conflicts hash entries m.overrides cfg m.sources

  abbrev emergency : Bool → Bool
  emergency recorded = auto_emergency cfg t recorded || cfg.emergency_empty

  abbrev config : Bool → ManagedConfig
  config recorded = record cfg { emergency_empty = emergency recorded }

  abbrev status : Bool → FeedStatus
  status recorded = first_status (config recorded) t (length conflicts) (length m.sources)

  abbrev before : Bool → Manager
  before recorded =
      if auto_emergency cfg t recorded
      then set_emergency_empty true (record m { last_resolve_err = t.error })
      else m

  generate_with-AllCounted :
      (recorded : Bool)
      → (generate_with parse_ip hash cfg t now recorded m).0.failure ≡ none
      → AllCounted (length m.entries) (generate_with parse_ip hash cfg t now recorded m).0.status
  unfolding generate_with applied_entries first_status
  generate_with-AllCounted recorded h =
      make_feed-AllCounted (emergency recorded || not cfg.enabled) (resolves cfg && no_ips t.ips)
        parse_ip (status recorded) (config recorded) t (conflict_keys conflicts) entries now
        recorded (before recorded) refl h
      ∙ length-map (λ (kv : Text × Entry). apply_override m.overrides kv.1) m.entries

  generate_with-SameCatalog :
      (recorded : Bool) → SameCatalog m (generate_with parse_ip hash cfg t now recorded m).1
  unfolding generate_with
  generate_with-SameCatalog recorded =
      SameCatalog-trans m (before recorded) (generate_with parse_ip hash cfg t now recorded m).1
        (emergency-SameCatalog (auto_emergency cfg t recorded) m t.error)
        (make_feed-SameCatalog (emergency recorded || not cfg.enabled)
          (resolves cfg && no_ips t.ips) parse_ip (status recorded) (config recorded) t
          (conflict_keys conflicts) entries now recorded (before recorded))

  generate_with-SameFeed : SameFeed m (generate_with parse_ip hash cfg t now false m).1
  unfolding generate_with
  generate_with-SameFeed =
      SameFeed-trans m (before false) (generate_with parse_ip hash cfg t now false m).1
        (emergency-SameFeed (auto_emergency cfg t false) m t.error (auto_emergency-preview cfg t))
        (make_feed-SameFeed (emergency false || not cfg.enabled) (resolves cfg && no_ips t.ips)
          parse_ip (status false) (config false) t (conflict_keys conflicts) entries now
          (before false))

module _ (parse_ip : Text → Option Ip) (hash : Text → Text) (now : ℕ) (answer : Option Resolved)
    (m : Manager) where
  -- A generation that does not fail counts every entry of the catalog, and each one once: as
  -- included or as excluded.
  pub generate-AllCounted :
      (recorded : Bool)
      → (generate parse_ip hash now answer recorded m).0.failure ≡ none
      → AllCounted (length m.entries) (generate parse_ip hash now answer recorded m).0.status
  unfolding generate
  generate-AllCounted recorded h =
      let chosen = choose_target now answer m in
      generate_with-AllCounted parse_ip hash (effective_config m) chosen.0 now chosen.1 recorded h
      ∙ ap length (choose_target-Same now answer m).0.0

  -- A generation, served or previewed, changes neither the entries nor the sources, the waiting
  -- lists, the overrides, the rollbacks and the preset. A preview also leaves the configuration, the
  -- emergency flag included, the history, the snapshot and the feed times as they were.
  pub generate-Same :
      ((recorded : Bool) → SameCatalog m (generate parse_ip hash now answer recorded m).1)
      × SameFeed m (generate parse_ip hash now answer false m).1
  unfolding generate
  generate-Same =
      let chosen = choose_target now answer m in
      let cfg = effective_config m in
      let same = choose_target-Same now answer m in
      (
        λ recorded.
            SameCatalog-trans m chosen.1 (generate parse_ip hash now answer recorded m).1 same.0
              (generate_with-SameCatalog parse_ip hash cfg chosen.0 now chosen.1 recorded),
        SameFeed-trans m chosen.1 (generate parse_ip hash now answer false m).1 same.1
            (generate_with-SameFeed parse_ip hash cfg chosen.0 now chosen.1),
      )
