-- ===== src/Managed/Overrides/Restored.antt =====
-- What a patch and a rollback do to the override of one entry.
use mirage_chaff.Base.{
  ◌≡◌, refl, false, List, [], ◌∷◌, Option, none, some, if◌then◌else◌, Bool-cases, inl, inr, arith,
}
use mirage_chaff.Base.Text.{Text, text_eq_iff}
use mirage_chaff.Base.Dict.{Dict, lookup, insert, delete, lookup-insert, lookup-delete, text_key}
use mirage_chaff.Managed.Types.{CatalogOverride, RollbackRecord, or_else}
use mirage_chaff.Managed.Rows.{string_in_slice, override_of}
use mirage_chaff.Managed.Overrides.{patch_loop, patched}
use mirage_chaff.Managed.Overrides.Rollback.{restore_loop}

pub patch_loop-other :
    (ov : CatalogOverride) (by ids : List Text) (o : Dict Text CatalogOverride) (k : Text)
    → string_in_slice k ids ≡ false
    → lookup k (patch_loop ov by ids o) ≡ lookup k o
unfolding patch_loop string_in_slice
patch_loop-other ov by [] o k h = refl
patch_loop-other ov by (id ∷ ids) o k h = ground (
  arith,
  patch_loop-other ov by ids (insert id (patched ov by id o) o) k,
  lookup-insert id k (patched ov by id o) o,
)

-- What a record says of an entry.
abbrev pub former : RollbackRecord → Text → Option CatalogOverride
former rec k =
    if or_else (lookup k rec.before_exists) false then some (override_of k rec.before) else none

pub restore_loop_lem :
    (rec : RollbackRecord) (k : Text) (ids : List Text) (o : Dict Text CatalogOverride)
    → lookup k (restore_loop rec ids o)
      ≡ (if string_in_slice k ids then former rec k else lookup k o)
unfolding restore_loop string_in_slice
restore_loop_lem rec k [] o = refl
restore_loop_lem rec k (id ∷ ids) o =
    elim (Bool-cases (or_else (lookup id rec.before_exists) false)) [
      | inl yes_there ↦
          rw
            (
              yes_there,
              restore_loop_lem rec k ids (insert id (override_of id rec.before) o),
              lookup-insert id k (override_of id rec.before) o,
            )
            (ground (arith, text_eq_iff id k))
      | inr absent ↦
          rw (absent, restore_loop_lem rec k ids (delete id o), lookup-delete id k o)
            (ground (arith, text_eq_iff id k))
    ]
