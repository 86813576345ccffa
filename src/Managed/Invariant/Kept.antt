-- ===== src/Managed/Invariant/Kept.antt =====
-- Every step keeps the invariant.
use mirage_chaff.Base.{ℕ, ◌≡◌, subst, refl, Bool-cases, inl, inr, arith, Option}
use mirage_chaff.Base.Text.{Text}
use mirage_chaff.Base.Dict.{lookup, text_key}
use mirage_chaff.Managed.Types.{ManagedConfig, Manager, done}
use mirage_chaff.Managed.Rows.{valid_preset}
use mirage_chaff.Managed.Sync.{finish_sync}
use mirage_chaff.Managed.Settings.{new_manager, set_config, set_emergency_empty, set_preset}
use mirage_chaff.Managed.Target
use mirage_chaff.Managed.Target.{Resolved, Resolved-cases, resolve_target, refresh_target}
use mirage_chaff.Managed.Invariant.{
  IsValid, Step, upserts, deletes, syncs, approves, rejects, patches, bulk_patches, resolves,
  resolves_by_priority, rolls_back, configures, sets_emergency, sets_preset, refreshes, generates,
  Reach, here, next,
}
use mirage_chaff.Managed.Invariant.Sourced.{delete_source-IsValid}
use mirage_chaff.Managed.Invariant.Imported.{
  finish_with-IsValid, SameRest, SameRest-IsValid, upsert_source-IsValid, approve_source-IsValid,
  reject_source-IsValid,
}
use mirage_chaff.Managed.Invariant.Changes.{
  patch_entry-IsValid, bulk_patch_entries-IsValid, resolve_conflict-IsValid,
  resolve_conflict_by_priority-IsValid, rollback-IsValid, generate-IsValid,
}

new_manager-IsValid : (cfg : ManagedConfig) → IsValid (new_manager cfg)
unfolding new_manager lookup
new_manager-IsValid cfg = record {
  unique = tt;
  known = λ k e h. absurd (cc h);
  waiting = λ id h. absurd (cc h);
  few_rollbacks = omega arith;
  short_history = omega arith;
}

set_preset-IsValid : (p : Text) (m m' : Manager) → set_preset p m ≡ done m' → IsValid m → IsValid m'
unfolding set_preset
set_preset-IsValid p m m' h v = elim (Bool-cases (valid_preset p)) [
  | inr q ↦ absurd (cc (rw q at h))
  | inl q ↦
      let same : record m { preset = p } ≡ m' = cc (rw q at h) in
      subst IsValid same
        (SameRest-IsValid m (record m { preset = p }) v (refl, refl, refl, refl, v.few_rollbacks))
]

refresh_target-SameRest :
    (now : ℕ) (answer : Option Resolved) (m : Manager)
    → IsValid m
    → SameRest m (refresh_target now answer m)
unfolding refresh_target
refresh_target-SameRest now answer m v = elim (Bool-cases (Target.resolves m.cfg)) [
  | inr q ↦ rw (q, refresh_target) (refl, refl, refl, refl, v.few_rollbacks)
  | inl q ↦ elim (Resolved-cases (resolve_target m.cfg m.target_ips answer)) [
    | inl (ips, e) ↦ rw (q, refresh_target, e) (refl, refl, refl, refl, v.few_rollbacks)
    | inr (ips, problem, e) ↦ rw (q, refresh_target, e) (refl, refl, refl, refl, v.few_rollbacks)
  ]
]

Step-IsValid : {m m' : Manager} → Step m m' → IsValid m → IsValid m'
unfolding finish_sync set_config set_emergency_empty
Step-IsValid (upserts hash s src m m' h) v = upsert_source-IsValid hash s src m m' h v
Step-IsValid (deletes id m) v = delete_source-IsValid id m v
Step-IsValid (syncs id src run m) v = finish_with-IsValid run.result id src run m v
Step-IsValid (approves id src m m' h) v = approve_source-IsValid id src m m' h v
Step-IsValid (rejects id src m m' h) v = reject_source-IsValid id src m m' h v
Step-IsValid (patches rb id ov by row m m' h) v = patch_entry-IsValid rb id ov by row m m' h v
Step-IsValid (bulk_patches rb summary ids ov by rows m m' h) v =
    bulk_patch_entries-IsValid rb summary ids ov by rows m m' h v
Step-IsValid (resolves hash rb id ov by row m m' h) v =
    resolve_conflict-IsValid hash rb id ov by row m m' h v
Step-IsValid (resolves_by_priority hash rb summary id by rows m m' h) v =
    resolve_conflict_by_priority-IsValid hash rb summary id by rows m m' h v
Step-IsValid (rolls_back id rows m m' h) v = rollback-IsValid id rows m m' h v
Step-IsValid (configures cfg m) v =
    SameRest-IsValid m (set_config cfg m) v (refl, refl, refl, refl, v.few_rollbacks)
Step-IsValid (sets_emergency on m) v =
    SameRest-IsValid m (set_emergency_empty on m) v (refl, refl, refl, refl, v.few_rollbacks)
Step-IsValid (sets_preset p m m' h) v = set_preset-IsValid p m m' h v
Step-IsValid (refreshes now answer m) v =
    SameRest-IsValid m (refresh_target now answer m) v (refresh_target-SameRest now answer m v)
Step-IsValid (generates parse_ip hash now answer recorded m) v =
    generate-IsValid parse_ip hash now answer recorded m v

Reach-from : {s m : Manager} → IsValid s → Reach s m → IsValid m
Reach-from v here = v
Reach-from v (next r st) = Step-IsValid st (Reach-from v r)

-- In every state that the operations reach from a new manager, syncs that end at any time after they
-- began included, no entry id comes twice, each entry and each waiting import belongs to a source
-- that is there, and neither history has more than 50 records.
pub Reach-IsValid : (cfg : ManagedConfig) (m : Manager) → Reach (new_manager cfg) m → IsValid m
Reach-IsValid cfg m r = Reach-from (new_manager-IsValid cfg) r
