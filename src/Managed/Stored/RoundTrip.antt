-- ===== src/Managed/Stored/RoundTrip.antt =====
-- internal/aghmanaged/manager.go: what a restart keeps of the manager.
use mirage_chaff.Base.{◌≡◌, refl, ◌∙◌, ap, List, [], ◌∷◌, true, some, Bool, arith, ◌||◌}
use mirage_chaff.Base.Text.{Text, text_eq, text_eq_iff}
use mirage_chaff.Base.Dict.{Dict, lookup, insert, text_key, lookup-insert}
use mirage_chaff.Base.Keys.{HasUniqueKeys}
use mirage_chaff.Base.Sort.{insert_by, sort_by, text_lt}
use mirage_chaff.Policy.Rules.{one_of}
use mirage_chaff.Managed.Types.{Manager, ManagedConfig, Source, Entry}
use mirage_chaff.Managed.Settings.{new_manager}
use mirage_chaff.Managed.Overrides.{is_present}
use mirage_chaff.Managed.Stored.{
  copy_state, open_manager, stored, restore, restore_snapshot, keys_of,
}
use mirage_chaff.Managed.Stored.Again.{IsKeyed, lookup-again}

module _ (less : Text → Text → Bool) where
  one_of-insert_by :
      (n x : Text) (xs : List Text) → one_of n (insert_by less x xs) ≡ (text_eq n x || one_of n xs)
  unfolding insert_by one_of
  one_of-insert_by n x [] = refl
  one_of-insert_by n x (y ∷ ys) = ground (arith, one_of-insert_by n x ys)

  one_of-sort_by : (n : Text) (xs : List Text) → one_of n (sort_by less xs) ≡ one_of n xs
  unfolding sort_by one_of
  one_of-sort_by n [] = refl
  one_of-sort_by n (x ∷ xs) =
      one_of-insert_by n x (sort_by less xs) ∙ ap (λ b. text_eq n x || b) (one_of-sort_by n xs)

one_of-keys_of : (n : Text) (d : Dict Text Bool) → one_of n (keys_of d) ≡ is_present (lookup n d)
unfolding keys_of one_of lookup
one_of-keys_of n [] = refl
one_of-keys_of n ((k, b) ∷ d) = ground (arith, text_eq_iff n k, text_eq_iff k n, one_of-keys_of n d)

one_of-restore_snapshot :
    (n : Text) (ids : List Text) (d : Dict Text Bool)
    → one_of n (keys_of (restore_snapshot ids d)) ≡ (one_of n ids || one_of n (keys_of d))
unfolding restore_snapshot one_of
one_of-restore_snapshot n [] d = refl
one_of-restore_snapshot n (id ∷ ids) d =
    one_of-restore_snapshot n ids (insert id true d)
    ∙ ground (
      arith,
      one_of-keys_of n (insert id true d),
      one_of-keys_of n d,
      lookup-insert id n true d,
      text_eq_iff n id,
      text_eq_iff id n,
    )

-- The manager after a restart: the same sources, entries and feed, under the same ids, and the same decisions of
-- the operator, with the settings of the new configuration apart from the emergency switch. The resolved
-- addresses are gone.
pub record Restarted (opened : ManagedConfig) (m m' : Manager) : Type 0 where
  pub cfg : m'.cfg ≡ record opened { emergency_empty = m.cfg.emergency_empty }
  pub sources : (id : Text) → lookup id m'.sources ≡ lookup id m.sources
  pub entries : (id : Text) → lookup id m'.entries ≡ lookup id m.entries
  pub snapshot : (id : Text) → one_of id m'.feed_snapshot ≡ one_of id m.feed_snapshot
  pub pending : m'.pending ≡ m.pending
  pub overrides : m'.overrides ≡ m.overrides
  pub preset : m'.preset ≡ m.preset
  pub rollbacks : m'.rollbacks ≡ m.rollbacks
  pub feed_seen : m'.feed_seen ≡ m.feed_seen
  pub feed_history : m'.feed_history ≡ m.feed_history
  pub target_ips : m'.target_ips ≡ []

-- Every source and entry stands under its own id, once.
pub record IsStorable (m : Manager) : Type 0 where
  pub sources_keyed : IsKeyed (λ (s : Source). s.id) m.sources
  pub sources_unique : HasUniqueKeys m.sources
  pub entries_keyed : IsKeyed (λ (e : Entry). e.id) m.entries
  pub entries_unique : HasUniqueKeys m.entries

-- Opening the state that was stored gives the manager back, with the settings of the configuration that it
-- is opened with: no source, entry, override, waiting import, history or emergency switch is lost.
pub open_manager-copy_state :
    (cfg : ManagedConfig) (m : Manager)
    → IsStorable m
    → (m' : Manager) × (open_manager cfg (stored (copy_state m)) ≡ some m') × Restarted cfg m m'
unfolding open_manager copy_state restore new_manager keys_of one_of
open_manager-copy_state cfg m k = (
  _,
  refl,
  record {
    cfg = refl;
    sources = λ id. lookup-again _ _ id m.sources k.sources_keyed k.sources_unique;
    entries = λ id. lookup-again _ _ id m.entries k.entries_keyed k.entries_unique;
    snapshot = λ id.
        one_of-restore_snapshot id _ [] ∙ ground (arith, one_of-sort_by text_lt id m.feed_snapshot);
    pending = refl;
    overrides = refl;
    preset = refl;
    rollbacks = refl;
    feed_seen = refl;
    feed_history = refl;
    target_ips = refl;
  },
)
