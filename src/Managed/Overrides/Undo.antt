-- ===== src/Managed/Overrides/Undo.antt =====
-- Rolling back a patch.
use mirage_chaff.Base.{
  ℕ, zero, suc, ◌-◌, ◌≤◌, ◌≡◌, refl, ap, subst, true, false, List, [], ◌∷◌, ◌++◌, Option, none,
  some, if◌then◌else◌, length, drop, length-append, ltb, Bool-cases, Option-cases, inl, inr, arith,
  All, ◌∙◌,
}
use mirage_chaff.Base.Text.{Text, codes, text_eq, text_eq_iff}
use mirage_chaff.Base.Dict.{Dict, lookup, text_key}
use mirage_chaff.Managed.Types.{
  Entry, CatalogOverride, RollbackRecord, Manager, done, or_else, no_override,
}
use mirage_chaff.Managed.Rows.{CatalogRow, string_in_slice}
use mirage_chaff.Managed.Overrides.{
  unique_from, unique_strings, capture_overrides, newest, max_rollbacks, new_record,
  record_rollback, override_all, bulk_patch_entries, patch_loop, missing_entry, rows_for_ids,
  is_present,
}
use mirage_chaff.Managed.Overrides.Rollback.{find_record, overlap, restore_loop, rollback}
use mirage_chaff.Managed.Overrides.Captured.{
  in-unique_strings, capture_overrides-before, capture_overrides-exists,
}
use mirage_chaff.Managed.Overrides.Restored.{restore_loop_lem, patch_loop-other}

-- No record has the id.
abbrev pub IsFresh : Text → List RollbackRecord → Type 0
IsFresh rb rs = All (λ r. text_eq r.id rb ≡ false) rs

drop-IsFresh :
    (rb : Text) (n : ℕ) (rs : List RollbackRecord) → IsFresh rb rs → IsFresh rb (drop n rs)
drop-IsFresh rb zero rs h = h
drop-IsFresh rb (suc n) [] h = tt
drop-IsFresh rb (suc n) (r ∷ rs) h = drop-IsFresh rb n rs h.1

drop-append {ℓ} :
    {A : Type ℓ} (n : ℕ) (xs ys : List A) → n ≤ length xs → drop n (xs ++ ys) ≡ drop n xs ++ ys
drop-append zero xs ys h = refl
drop-append (suc n) [] ys h = absurd (omega arith)
drop-append (suc n) (x ∷ xs) ys h = drop-append n xs ys (omega arith)

-- The newest record is kept, behind what is left of the older ones.
newest-append :
    (rb : Text) (rs : List RollbackRecord) (r : RollbackRecord)
    → IsFresh rb rs
    → (older : List RollbackRecord) × (newest (rs ++ r ∷ []) ≡ older ++ r ∷ []) × IsFresh rb older
unfolding newest
newest-append rb rs r h = elim (Bool-cases (ltb max_rollbacks (length (rs ++ r ∷ [])))) [
  | inl more ↦
      let n = length (rs ++ r ∷ []) - max_rollbacks in
      (
        drop n rs,
        rw more (drop-append n rs (r ∷ []) (omega (arith, length-append rs (r ∷ [])))),
        drop-IsFresh rb n rs h,
      )
  | inr few ↦ (rs, rw few, h)
]

find_record-append :
    (rb : Text) (older newer : List RollbackRecord) (r : RollbackRecord)
    → IsFresh rb older
    → text_eq r.id rb ≡ true
    → find_record rb (older ++ r ∷ newer) ≡ some (older, r, newer)
unfolding find_record
find_record-append rb [] newer r h e = rw (e, find_record)
find_record-append rb (o ∷ older) newer r h e =
    rw (h.0, find_record, find_record-append rb older newer r h.1 e)

missing_entry-unique_from :
    (entries : Dict Text Entry) (seen ids : List Text)
    → missing_entry entries ids ≡ none
    → missing_entry entries (unique_from seen ids) ≡ none
unfolding missing_entry unique_from
missing_entry-unique_from entries seen [] h = refl
missing_entry-unique_from entries seen (id ∷ ids) h = elim (Option-cases (lookup id entries)) [
  | inl e ↦ absurd (cc (rw (e, missing_entry) at h))
  | inr (v, e) ↦
      let rest = rw (e, missing_entry) at h in
      elim (Bool-cases (string_in_slice id seen)) [
        | inl old ↦ rw (old, unique_from) (missing_entry-unique_from entries seen ids rest)
        | inr new ↦
            rw (new, unique_from, e, missing_entry)
              (missing_entry-unique_from entries (id ∷ seen) ids rest)
      ]
]

present_or :
    (v : Option CatalogOverride) → (if is_present v then some (or_else v no_override) else none) ≡ v
present_or none = refl
present_or (some v) = refl

-- Restoring after a patch gives each entry back the override that it had, or none.
restore-patch :
    (rb : Text × ℕ) (action summary : Text) (ids by : List Text) (ov : CatalogOverride)
    (o o' : Dict Text CatalogOverride) (k : Text)
    → lookup k (
        restore_loop
          (new_record rb action (unique_strings ids) (capture_overrides o ids) summary o')
          (unique_strings ids)
          (patch_loop ov by ids o))
      ≡ lookup k o
unfolding new_record
restore-patch rb action summary ids by ov o o' k =
    let rec = new_record rb action (unique_strings ids) (capture_overrides o ids) summary o' in
    elim (Bool-cases (string_in_slice k ids)) [
      | inl mine ↦
          rw
            (
              restore_loop_lem rec k (unique_strings ids) (patch_loop ov by ids o),
              in-unique_strings k ids,
              mine,
              capture_overrides-exists o k ids,
              capture_overrides-before o k ids,
              mine,
            )
            (present_or (lookup k o))
      | inr other ↦
          rw
            (
              restore_loop_lem rec k (unique_strings ids) (patch_loop ov by ids o),
              in-unique_strings k ids,
              other,
            )
            (patch_loop-other ov by ids o k other)
    ]

-- The state after a rollback.
abbrev pub rolled_back :
    Manager → List RollbackRecord → RollbackRecord → List RollbackRecord → Manager
rolled_back m older rec newer = record m {
  overrides = restore_loop rec rec.entry_ids m.overrides;
  rollbacks = older ++ newer;
}

rollback_found :
    (rb : Text) (m : Manager) (older newer : List RollbackRecord) (rec : RollbackRecord)
    → find_record rb m.rollbacks ≡ some (older, rec, newer)
    → missing_entry m.entries rec.entry_ids ≡ none
    → overlap rec.entry_ids newer ≡ none
    → rollback rb m
      ≡ done (
        rows_for_ids (rolled_back m older rec newer) rec.entry_ids,
        rolled_back m older rec newer,
      )
unfolding rollback
rollback_found rb m older newer rec found there free = rw (found, rollback, there, free)

-- The rollback of the newest record, when all its entries are still there.
rollback-override_all :
    (rb : Text) (now : ℕ) (action summary : Text) (ids by : List Text) (ov : CatalogOverride)
    (m : Manager)
    → IsFresh rb m.rollbacks
    → missing_entry m.entries ids ≡ none
    → (rows : List CatalogRow) × (m' : Manager) × (rollback rb
          (override_all (rb, now) action summary ids ov by m)
        ≡ done (rows, m'))
      × ((k : Text) → lookup k m'.overrides ≡ lookup k m.overrides)
      × (m'.entries ≡ m.entries)
unfolding override_all record_rollback new_record unique_strings overlap
rollback-override_all rb now action summary ids by ov m fresh there =
    let o' = patch_loop ov by ids m.overrides in
    let captured = capture_overrides m.overrides ids in
    let rec = new_record (rb, now) action (unique_strings ids) captured summary o' in
    let parts = newest-append rb m.rollbacks rec fresh in
    let older = parts.0 in
    let cut = parts.1 in
    let left = parts.2 in
    let patched_m = override_all (rb, now) action summary ids ov by m in
    let m' = rolled_back patched_m older rec [] in
    (
      rows_for_ids m' (unique_strings ids),
      m',
      rollback_found rb patched_m older [] rec
          (ap (find_record rb) cut
            ∙ find_record-append rb older [] rec left ((text_eq_iff rb rb).1 refl))
          (missing_entry-unique_from m.entries [] ids there) refl,
      λ k. restore-patch (rb, now) action summary ids by ov m.overrides o' k,
      refl,
    )

-- Patching several entries under a new rollback id and rolling that back succeeds, gives every
-- entry back the override that it had before, or none, and leaves the catalog's entries as they
-- were.
pub rollback-bulk_patch_entries :
    (rb : Text) (now : ℕ) (summary : Text) (ids by : List Text) (ov : CatalogOverride)
    (m m' : Manager) (rows : List CatalogRow)
    → IsFresh rb m.rollbacks
    → bulk_patch_entries (rb, now) summary ids ov by m ≡ done (rows, m')
    → (rows' : List CatalogRow) × (m'' : Manager) × (rollback rb m' ≡ done (rows', m''))
      × ((k : Text) → lookup k m''.overrides ≡ lookup k m.overrides)
      × (m''.entries ≡ m.entries)
unfolding bulk_patch_entries
rollback-bulk_patch_entries rb now summary [] by ov m m' rows fresh h = absurd (cc)
rollback-bulk_patch_entries rb now summary (id ∷ ids) by ov m m' rows fresh h =
    elim (Option-cases (missing_entry m.entries (id ∷ ids))) [
      | inr (gone, e) ↦ absurd (cc (rw (e, bulk_patch_entries) at h))
      | inl e ↦
          let state =
            override_all (rb, now) (codes "catalog bulk patch") summary (id ∷ ids) ov by m in
          let ran = rw (e, bulk_patch_entries) at h in
          let same : state ≡ m' = cc in
          subst
            (λ x.
              (rows' : List CatalogRow) × (m'' : Manager) × (rollback rb x ≡ done (rows', m''))
              × ((k : Text) → lookup k m''.overrides ≡ lookup k m.overrides)
              × (m''.entries ≡ m.entries))
            same
            (rollback-override_all rb now (codes "catalog bulk patch") summary (id ∷ ids) by ov m
              fresh e)
    ]
