-- ===== src/Managed/Resolve.antt =====
-- internal/aghmanaged/manager.go: resolving a conflict, by hand and by the priority of the sources.
pub mod Winner
use mirage_chaff.Base.{
  ℕ, Bool, true, false, not, ◌&&◌, ◌||◌, List, [], ◌∷◌, ◌++◌, Option, none, some, if◌then◌else◌,
}
use mirage_chaff.Base.Text.{Text, codes, text_eq}
use mirage_chaff.Base.Dict.{lookup, text_key}
use mirage_chaff.Base.Int.{ltz}
use mirage_chaff.Managed.Types.{
  CatalogOverride, Manager, Outcome, refused, done, not_exist, priority_tie,
}
use mirage_chaff.Managed.Rows.{CatalogRow, catalog_row_from_entry, apply_override}
use mirage_chaff.Managed.Overrides.{override_all, patched, rows_for_ids}
use mirage_chaff.Managed.Groups.{is_allow, conflict_participant}
use mirage_chaff.Managed.Conflicts.{Conflict, list_conflicts}

unfoldable pub find_conflict : Text → List Conflict → Option Conflict
find_conflict id [] = none
find_conflict id (c ∷ cs) = if text_eq c.id id then some c else find_conflict id cs

-- The first row that rewrites.
unfoldable pub first_rewrite : List CatalogRow → Option CatalogRow
first_rewrite [] = none
first_rewrite (row ∷ rows) =
    if not (is_allow row) && row.rewrite_enabled then some row else first_rewrite rows

-- The row to override: the first that rewrites, or else the first.
unfoldable pub target_row : List CatalogRow → Option CatalogRow
target_row [] = none
target_row (row ∷ rows) = elim (first_rewrite (row ∷ rows)) [ some r ↦ some r | none ↦ some row ]

abbrev row_id : Option CatalogRow → Text
row_id none = []
row_id (some row) = row.entry.id

unfoldable pub target_of : Option Conflict → Text
target_of none = []
target_of (some c) = row_id (target_row c.entries)

-- `summary` is "resolved " and the conflict's id.
unfoldable pub resolve_conflict :
    (Text → Text)
    → Text × ℕ
    → Text
    → CatalogOverride
    → List Text
    → Manager
    → Outcome (CatalogRow × Manager)
resolve_conflict hash rollback id ov changed_by m =
    let target = target_of (find_conflict id (list_conflicts hash m)) in
    if text_eq target [] then refused not_exist else elim (lookup target m.entries) [
      | none ↦ refused not_exist
      | some e ↦
          let m' =
            override_all rollback (codes "conflict resolve") (codes "resolved " ++ id) (target ∷ [])
              ov changed_by m in
          done (
            catalog_row_from_entry m' (apply_override m'.overrides e)
                (patched ov changed_by target m.overrides),
            m',
          )
    ]

-- The loop with the winner so far, and whether another row has its priority.
unfoldable pub winner_loop : Option CatalogRow × Bool → List CatalogRow → Option CatalogRow × Bool
winner_loop best [] = best
winner_loop (none, tied) (row ∷ rows) =
    winner_loop (if conflict_participant row then (some row, false) else (none, tied)) rows
winner_loop (some w, tied) (row ∷ rows) =
    winner_loop
      (if not (conflict_participant row)
        then (some w, tied)
        else if ltz w.source_priority row.source_priority
        then (some row, false)
        else (some w, tied || not (ltz row.source_priority w.source_priority)))
      rows

unfoldable pub losers : Text → List CatalogRow → List Text
losers winner [] = []
losers winner (row ∷ rows) =
    if text_eq row.entry.id winner then losers winner rows else row.entry.id ∷ losers winner rows

-- The override that makes another row like the winner.
unfoldable pub winning_override : CatalogRow → CatalogOverride
winning_override w = record {
  category = w.entry.category;
  resource_type = w.entry.resource_type;
  risk = w.entry.risk;
  confidence = w.entry.confidence;
  review_status = w.entry.review_status;
  verified = some w.entry.verified;
  expected_catalog = w.entry.expected_catalog;
  action = w.action;
  rewrite_enabled = none;
  rewrite_reason = [];
  notes = [];
  last_changed_by = [];
}

-- `summary` is the text with the winner's source and priority.
unfoldable pub settle_winner :
    Text × ℕ
    → (CatalogRow → Text)
    → List Text
    → List CatalogRow
    → Option CatalogRow × Bool
    → Manager
    → Outcome (List CatalogRow × Manager)
settle_winner rollback summary changed_by rows (none, tied) m = refused not_exist
settle_winner rollback summary changed_by rows (some w, true) m =
    refused (priority_tie w.source_priority)
settle_winner rollback summary changed_by rows (some w, false) m = elim (losers w.entry.id rows) [
  | [] ↦ refused not_exist
  | id ∷ ids ↦
      let m' =
        override_all rollback (codes "conflict source priority resolve") (summary w) (id ∷ ids)
          (winning_override w) changed_by m in
      done (rows_for_ids m' (id ∷ ids), m')
]

unfoldable pub resolve_conflict_by_priority :
    (Text → Text)
    → Text × ℕ
    → (CatalogRow → Text)
    → Text
    → List Text
    → Manager
    → Outcome (List CatalogRow × Manager)
resolve_conflict_by_priority hash rollback summary id changed_by m =
    elim (find_conflict id (list_conflicts hash m)) [
      | none ↦ refused not_exist
      | some c ↦
          settle_winner rollback summary changed_by c.entries (winner_loop (none, false) c.entries)
            m
    ]
