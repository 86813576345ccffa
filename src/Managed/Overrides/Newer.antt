-- ===== src/Managed/Overrides/Newer.antt =====
-- A rollback among the records of other changes.
use mirage_chaff.Base.{
  ◌≡◌, refl, ap, subst, Bool, true, false, ◌||◌, List, [], ◌∷◌, ◌++◌, none, some, if◌then◌else◌,
  Bool-cases, Option-cases, inl, inr, ◌∙◌,
}
use mirage_chaff.Base.Text.{Text, text_eq, text_eq_iff}
use mirage_chaff.Base.Dict.{lookup, text_key}
use mirage_chaff.Managed.Types.{RollbackRecord, Manager, done}
use mirage_chaff.Managed.Rows.{CatalogRow, string_in_slice}
use mirage_chaff.Managed.Overrides.{missing_entry}
use mirage_chaff.Managed.Overrides.Rollback.{find_record, first_in, overlap, rollback}
use mirage_chaff.Managed.Overrides.Restored.{former, restore_loop_lem}
use mirage_chaff.Managed.Overrides.Undo.{rolled_back}

-- Some record changed the entry.
abbrev pub changed_by_any : Text → List RollbackRecord → Bool
changed_by_any k [] = false
changed_by_any k (r ∷ rs) = string_in_slice k r.entry_ids || changed_by_any k rs

find_record-some :
    (id : Text) (rs older newer : List RollbackRecord) (rec : RollbackRecord)
    → find_record id rs ≡ some (older, rec, newer)
    → (rs ≡ older ++ rec ∷ newer) × (rec.id ≡ id)
unfolding find_record
find_record-some id [] older newer rec h = absurd cc
find_record-some id (r ∷ rs) older newer rec h = elim (Bool-cases (text_eq r.id id)) [
  | inl here ↦
      let found = rw (here, find_record) at h in
      let none_older : [] ≡ older = cc in
      let same : r ≡ rec = cc in
      let rest : rs ≡ newer = cc in
      (
        subst (λ x. r ∷ rs ≡ x ++ rec ∷ newer) none_older (cc),
        subst (λ x. x.id ≡ id) same ((text_eq_iff r.id id).0 here),
      )
  | inr further ↦ elim (Option-cases (find_record id rs)) [
    | inl e ↦ absurd (cc (rw (further, find_record, e) at h))
    | inr ((o, f, n), e) ↦
        let found = rw (further, find_record, e) at h in
        let a : r ∷ o ≡ older = cc in
        let b : f ≡ rec = cc in
        let c : n ≡ newer = cc in
        let (split, named) = find_record-some id rs o n f e in
        (
          subst (λ x. r ∷ rs ≡ x ++ rec ∷ newer) a (ap (◌∷◌ r) (split ∙ cc)),
          subst (λ x. x.id ≡ id) b named,
        )
  ]
]

first_in-none :
    (k : Text) (targets ids : List Text)
    → first_in targets ids ≡ none
    → string_in_slice k ids ≡ true
    → string_in_slice k targets ≡ false
unfolding first_in string_in_slice
first_in-none k targets [] h t = absurd cc
first_in-none k targets (id ∷ ids) h t = elim (Bool-cases (string_in_slice id targets)) [
  | inl e ↦ absurd (cc (rw (e, first_in) at h))
  | inr e ↦
      let rest = rw (e, first_in) at h in
      elim (Bool-cases (text_eq id k)) [
        | inl q ↦ subst (λ x. string_in_slice x targets ≡ false) ((text_eq_iff id k).0 q) e
        | inr q ↦ first_in-none k targets ids rest (rw q at t)
      ]
]

overlap-none :
    (k : Text) (targets : List Text) (rs : List RollbackRecord)
    → overlap targets rs ≡ none
    → changed_by_any k rs ≡ true
    → string_in_slice k targets ≡ false
unfolding overlap
overlap-none k targets [] h t = absurd cc
overlap-none k targets (r ∷ rs) h t = elim (Option-cases (first_in targets r.entry_ids)) [
  | inr (i, e) ↦ absurd (cc (rw (e, overlap) at h))
  | inl e ↦
      let rest = rw (e, overlap) at h in
      elim (Bool-cases (string_in_slice k r.entry_ids)) [
        | inl q ↦ first_in-none k targets r.entry_ids e q
        | inr q ↦ overlap-none k targets rs rest (rw q at t)
      ]
]

-- What a rollback of a record between older and newer ones leaves.
abbrev pub RollsBack :
    Text → Manager → Manager → List RollbackRecord → RollbackRecord → List RollbackRecord → Type 0
RollsBack id m m' older rec newer =
    (m.rollbacks ≡ older ++ rec ∷ newer)
    × (rec.id ≡ id)
    × (m'.rollbacks ≡ older ++ newer)
    × ((k : Text)
        → lookup k m'.overrides
          ≡ (if string_in_slice k rec.entry_ids then former rec k else lookup k m.overrides))
    × ((k : Text) → changed_by_any k newer ≡ true → lookup k m'.overrides ≡ lookup k m.overrides)
    × (m' ≡ record m { overrides = m'.overrides; rollbacks = m'.rollbacks })

-- A rollback that succeeds takes the record with the id out of the history, gives the record's
-- entries the override from before the change and no other entry, leaves every entry alone that a
-- newer record changed, and changes nothing else of the state.
pub rollback-RollsBack :
    (id : Text) (m m' : Manager) (rows : List CatalogRow)
    → rollback id m ≡ done (rows, m')
    → (older : List RollbackRecord) × (rec : RollbackRecord) × (newer : List RollbackRecord)
      × RollsBack id m m' older rec newer
unfolding rollback
rollback-RollsBack id m m' rows h = elim (Option-cases (find_record id m.rollbacks)) [
  | inl e ↦ absurd (cc (rw (e, rollback) at h))
  | inr ((older, rec, newer), e) ↦
      let found = rw (e, rollback) at h in
      elim (Option-cases (missing_entry m.entries rec.entry_ids)) [
        | inr (i, q) ↦ absurd (cc (rw q at found))
        | inl q ↦
            let there = rw q at found in
            elim (Option-cases (overlap rec.entry_ids newer)) [
              | inr (i, o) ↦ absurd (cc (rw o at there))
              | inl o ↦
                  let same : rolled_back m older rec newer ≡ m' = cc (rw o at there) in
                  let (split, named) = find_record-some id m.rollbacks older newer rec e in
                  (
                    older,
                    rec,
                    newer,
                    subst (λ x. RollsBack id m x older rec newer) same
                        (
                          split,
                          named,
                          refl,
                          λ k. restore_loop_lem rec k rec.entry_ids m.overrides,
                          λ k t.
                              restore_loop_lem rec k rec.entry_ids m.overrides
                              ∙ rw (overlap-none k rec.entry_ids newer o t),
                          refl,
                        ),
                  )
            ]
      ]
]
