-- ===== src/Policy/Engine.antt =====
-- internal/policy/engine.go: the live ruleset, the temporary overrides and the decision. The clock's
-- reading is an argument of each operation.
pub mod Overrides
use mirage_chaff.Base.{
  ℕ, ◌+◌, List, [], ◌∷◌, ◌++◌, Bool, true, false, Option, none, some, ltb, if◌then◌else◌,
}
use mirage_chaff.Base.Text.{Text, codes}
use mirage_chaff.Base.Dict.{Dict, lookup, insert, delete, text_key, delete_where}
use mirage_chaff.Policy.Rules.{Decision, Ruleset, match_request}
use mirage_chaff.Policy.Aggregator.{
  Aggregator, UnmatchedEntry, new_aggregator, record_unmatched, top,
}

pub record TempRule : Type 0 where
  pub dec : Decision
  pub expires : ℕ

pub record Engine : Type 0 where
  pub rs : Ruleset
  pub unmatched : Aggregator
  pub temps : Dict Text TempRule

unfoldable pub new_engine : Ruleset → Engine
new_engine rs = record { rs = rs; unmatched = new_aggregator 10000; temps = [] }

unfoldable pub add_temp_rule : Engine → Text → Text → Text → ℕ → ℕ → Engine
add_temp_rule e domain action catalog ttl now = record e {
  temps =
      insert domain
        (record {
          dec = record {
            action = action;
            catalog = catalog;
            rule = codes "temp:" ++ domain;
            matched = true;
          };
          expires = now + ttl;
        })
        e.temps;
}

-- The overrides in force, each with its expiry.
unfoldable pub active_temps : ℕ → Dict Text TempRule → Dict Text ℕ
active_temps now [] = []
active_temps now ((d, t) ∷ ts) =
    if ltb now t.expires then (d, t.expires) ∷ active_temps now ts else active_temps now ts

-- The overrides that are not in force are deleted.
unfoldable pub temp_rules : Engine → ℕ → Dict Text ℕ × Engine
temp_rules e now = (
  active_temps now e.temps,
  record e {
    temps = delete_where (λ (t : TempRule). if ltb now t.expires then false else true) e.temps;
  },
)

unfoldable pub temp_for : Engine → Text → ℕ → Option Decision × Engine
temp_for e domain now = elim (lookup domain e.temps) [
  | none ↦ (none, e)
  | some t ↦
      if ltb t.expires now
      then (none, record e { temps = delete domain e.temps })
      else (some t.dec, e)
]

unfoldable pub swap : Engine → Ruleset → Engine
swap e rs = record e { rs = rs }

unfoldable pub note_unmatched : Engine → Decision → Text → Text → ℕ → Engine
note_unmatched e d domain path now =
    if d.matched then e else record e { unmatched = record_unmatched e.unmatched domain path now }

unfoldable pub decide : Engine → Text → Text → Text → ℕ → Decision × Engine
decide e domain path method now =
    let (found, e') = temp_for e domain now in
    elim found [
      | some d ↦ (d, e')
      | none ↦
          let d = match_request e'.rs domain path method in (d, note_unmatched e' d domain path now)
    ]

unfoldable pub unmatched_top : ℕ → Engine → List UnmatchedEntry
unmatched_top n e = top n e.unmatched
