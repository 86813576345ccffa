-- ===== src/Managed/Invariant/Changes.antt =====
-- Changes of the overrides and generations of the feed keep the invariant.
use mirage_chaff.Base.{
  ℕ, ◌≤◌, ◌≡◌, refl, ap, sym, subst, Bool, true, false, not, ◌&&◌, ◌||◌, List, [], ◌∷◌, ◌++◌,
  Option, none, some, length, if◌then◌else◌, Bool-cases, Option-cases, inl, inr, arith,
  length-append,
}
use mirage_chaff.Base.Text.{Text, text_eq, codes}
use mirage_chaff.Base.Members.{List-cases}
use mirage_chaff.Base.Dict.{lookup, text_key}
use mirage_chaff.Managed.Types.{Entry, CatalogOverride, ManagedConfig, Ip, Manager, done}
use mirage_chaff.Managed.Rows.{CatalogRow, effective_config}
use mirage_chaff.Managed.Overrides.{
  max_rollbacks, override_all, patch_entry, bulk_patch_entries, missing_entry,
}
use mirage_chaff.Managed.Overrides.Rollback.{rollback}
use mirage_chaff.Managed.Overrides.Newer.{rollback-RollsBack}
use mirage_chaff.Managed.Resolve.{
  resolve_conflict, resolve_conflict_by_priority, find_conflict, target_of, settle_winner,
  winner_loop, losers, winning_override,
}
use mirage_chaff.Managed.Conflicts.{list_conflicts, build_conflicts, applied_entries, conflict_keys}
use mirage_chaff.Managed.Target.{Target, Resolved, choose_target, resolves, no_ips}
use mirage_chaff.Managed.Settings.{set_emergency_empty}
use mirage_chaff.Managed.Generate.{
  FeedStatus, first_status, auto_emergency, generate_empty, generate_items, make_feed,
  generate_with, generate, persist_generation,
}
use mirage_chaff.Managed.Generate.Frame.{choose_target-Same}
use mirage_chaff.Managed.Generate.Counts.{generate-Same}
use mirage_chaff.Managed.Invariant.{IsValid}
use mirage_chaff.Managed.Invariant.Sourced.{length-newest}
use mirage_chaff.Managed.Invariant.Imported.{SameRest-IsValid, override_all-SameRest}

override_all-IsValid :
    (rb : Text × ℕ) (action summary : Text) (ids by : List Text) (ov : CatalogOverride)
    (m m' : Manager)
    → override_all rb action summary ids ov by m ≡ m'
    → IsValid m
    → IsValid m'
override_all-IsValid rb action summary ids by ov m m' same v = subst IsValid same (
    SameRest-IsValid m (override_all rb action summary ids ov by m) v
      (override_all-SameRest rb action summary ids by ov m))

pub patch_entry-IsValid :
    (rb : Text × ℕ) (id : Text) (ov : CatalogOverride) (by : List Text) (row : CatalogRow)
    (m m' : Manager)
    → patch_entry rb id ov by m ≡ done (row, m')
    → IsValid m
    → IsValid m'
unfolding patch_entry
patch_entry-IsValid rb id ov by row m m' h v = elim (Option-cases (lookup id m.entries)) [
  | inl q ↦ absurd (cc (rw (q, patch_entry) at h))
  | inr (e, q) ↦
      override_all-IsValid rb (codes "catalog patch") (codes "patched 1 entry") (id ∷ []) by ov m m'
        (cc (rw (q, patch_entry) at h)) v
]

pub bulk_patch_entries-IsValid :
    (rb : Text × ℕ) (summary : Text) (ids : List Text) (ov : CatalogOverride) (by : List Text)
    (rows : List CatalogRow) (m m' : Manager)
    → bulk_patch_entries rb summary ids ov by m ≡ done (rows, m')
    → IsValid m
    → IsValid m'
unfolding bulk_patch_entries
bulk_patch_entries-IsValid rb summary [] ov by rows m m' h v = absurd cc
bulk_patch_entries-IsValid rb summary (id ∷ ids) ov by rows m m' h v =
    elim (Option-cases (missing_entry m.entries (id ∷ ids))) [
      | inr (e, q) ↦ absurd (cc (rw (q, bulk_patch_entries) at h))
      | inl q ↦
          override_all-IsValid rb (codes "catalog bulk patch") summary (id ∷ ids) by ov m m'
            (cc (rw (q, bulk_patch_entries) at h)) v
    ]

pub resolve_conflict-IsValid :
    (hash : Text → Text) (rb : Text × ℕ) (id : Text) (ov : CatalogOverride) (by : List Text)
    (row : CatalogRow) (m m' : Manager)
    → resolve_conflict hash rb id ov by m ≡ done (row, m')
    → IsValid m
    → IsValid m'
unfolding resolve_conflict
resolve_conflict-IsValid hash rb id ov by row m m' h v =
    let target = target_of (find_conflict id (list_conflicts hash m)) in
    elim (Bool-cases (text_eq target [])) [
      | inl q ↦ absurd (cc (rw (q, resolve_conflict) at h))
      | inr q ↦ elim (Option-cases (lookup target m.entries)) [
        | inl p ↦ absurd (cc (rw (q, resolve_conflict, p) at h))
        | inr (e, p) ↦
            override_all-IsValid rb (codes "conflict resolve") (codes "resolved " ++ id)
              (target ∷ []) by ov m m' (cc (rw (q, resolve_conflict, p) at h)) v
      ]
    ]

settle_winner-IsValid :
    (rb : Text × ℕ) (summary : CatalogRow → Text) (by : List Text) (rows rows' : List CatalogRow)
    (best : Option CatalogRow × Bool) (m m' : Manager)
    → settle_winner rb summary by rows best m ≡ done (rows', m')
    → IsValid m
    → IsValid m'
unfolding settle_winner
settle_winner-IsValid rb summary by rows rows' (none, tied) m m' h v = absurd cc
settle_winner-IsValid rb summary by rows rows' (some w, true) m m' h v = absurd cc
settle_winner-IsValid rb summary by rows rows' (some w, false) m m' h v =
    elim (List-cases (losers w.entry.id rows)) [
      | inl q ↦ absurd (cc (rw (q, settle_winner) at h))
      | inr (id, ids, q) ↦
          override_all-IsValid rb (codes "conflict source priority resolve") (summary w) (id ∷ ids)
            by (winning_override w) m m' (cc (rw (q, settle_winner) at h)) v
    ]

pub resolve_conflict_by_priority-IsValid :
    (hash : Text → Text) (rb : Text × ℕ) (summary : CatalogRow → Text) (id : Text) (by : List Text)
    (rows : List CatalogRow) (m m' : Manager)
    → resolve_conflict_by_priority hash rb summary id by m ≡ done (rows, m')
    → IsValid m
    → IsValid m'
unfolding resolve_conflict_by_priority
resolve_conflict_by_priority-IsValid hash rb summary id by rows m m' h v =
    elim (Option-cases (find_conflict id (list_conflicts hash m))) [
      | inl q ↦ absurd (cc (rw (q, resolve_conflict_by_priority) at h))
      | inr (c, q) ↦
          settle_winner-IsValid rb summary by c.entries rows (winner_loop (none, false) c.entries) m
            m' (rw (q, resolve_conflict_by_priority) at h) v
    ]

pub rollback-IsValid :
    (id : Text) (rows : List CatalogRow) (m m' : Manager)
    → rollback id m ≡ done (rows, m')
    → IsValid m
    → IsValid m'
rollback-IsValid id rows m m' h v =
    let (older, rec, newer, back) = rollback-RollsBack id m m' rows h in
    let same = back.5 in
    let few : length m'.rollbacks ≤ max_rollbacks = omega (
      arith,
      ap length back.0,
      ap length back.2,
      length-append older (rec ∷ newer),
      length-append older newer,
      v.few_rollbacks,
    ) in
    SameRest-IsValid m m' v (
      ap (λ (x : Manager). x.entries) same,
      ap (λ (x : Manager). x.sources) same,
      ap (λ (x : Manager). x.pending) same,
      ap (λ (x : Manager). x.feed_history) same,
      few,
    )

-- The history after a generation.
abbrev HasShortHistory : Manager → Type 0
HasShortHistory m = length m.feed_history ≤ max_rollbacks

make_feed-HasShortHistory :
    (empty no_target : Bool) (parse_ip : Text → Option Ip) (status : FeedStatus)
    (cfg : ManagedConfig) (t : Target) (keys : List Text) (entries : List Entry) (now : ℕ)
    (recorded : Bool) (m : Manager)
    → HasShortHistory m
    → HasShortHistory
        (make_feed empty no_target parse_ip status cfg t keys entries now recorded m).1
unfolding make_feed generate_empty generate_items persist_generation
make_feed-HasShortHistory true no_target parse_ip status cfg t keys entries now true m h =
    length-newest _
make_feed-HasShortHistory true no_target parse_ip status cfg t keys entries now false m h = h
make_feed-HasShortHistory false true parse_ip status cfg t keys entries now recorded m h = h
make_feed-HasShortHistory false false parse_ip status cfg t keys entries now true m h =
    length-newest _
make_feed-HasShortHistory false false parse_ip status cfg t keys entries now false m h = h

emergency-HasShortHistory :
    (auto : Bool) (m : Manager) (problem : Text)
    → HasShortHistory m
    → HasShortHistory
        (if auto then set_emergency_empty true (record m { last_resolve_err = problem }) else m)
unfolding set_emergency_empty
emergency-HasShortHistory true m problem h = h
emergency-HasShortHistory false m problem h = h

generate_with-HasShortHistory :
    (parse_ip : Text → Option Ip) (hash : Text → Text) (cfg : ManagedConfig) (t : Target) (now : ℕ)
    (recorded : Bool) (m : Manager)
    → HasShortHistory m
    → HasShortHistory (generate_with parse_ip hash cfg t now recorded m).1
unfolding generate_with
generate_with-HasShortHistory parse_ip hash cfg t now recorded m h =
    let entries = applied_entries m.overrides m.entries in
    let conflicts = build_conflicts hash entries m.overrides cfg m.sources in
    let auto = auto_emergency cfg t recorded in
    let cfg' = record cfg { emergency_empty = auto || cfg.emergency_empty } in
    make_feed-HasShortHistory ((auto || cfg.emergency_empty) || not cfg.enabled)
      (resolves cfg && no_ips t.ips) parse_ip
      (first_status cfg' t (length conflicts) (length m.sources)) cfg' t (conflict_keys conflicts)
      entries now recorded
      (if auto then set_emergency_empty true (record m { last_resolve_err = t.error }) else m)
      (emergency-HasShortHistory auto m t.error h)

pub generate-IsValid :
    (parse_ip : Text → Option Ip) (hash : Text → Text) (now : ℕ) (answer : Option Resolved)
    (recorded : Bool) (m : Manager)
    → IsValid m
    → IsValid (generate parse_ip hash now answer recorded m).1
unfolding generate
generate-IsValid parse_ip hash now answer recorded m v =
    let m' = (generate parse_ip hash now answer recorded m).1 in
    let chosen = choose_target now answer m in
    let same = (generate-Same parse_ip hash now answer m).0 recorded in
    let few = subst (λ r. length r ≤ max_rollbacks) (sym same.4) v.few_rollbacks in
    let start =
      subst (λ l. length l ≤ max_rollbacks) (sym (choose_target-Same now answer m).1.0)
        v.short_history in
    let w =
      SameRest-IsValid m (record m' { feed_history = m.feed_history }) v
        (same.0, same.1, same.2, refl, few) in
    record {
      unique = w.unique;
      known = w.known;
      waiting = w.waiting;
      few_rollbacks = w.few_rollbacks;
      short_history =
          generate_with-HasShortHistory parse_ip hash (effective_config m) chosen.0 now recorded
            chosen.1 start;
    }
