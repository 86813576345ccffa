-- ===== src/Managed/Invariant/Sourced.antt =====
-- The changes of the catalog and the sources keep the invariant.
use mirage_chaff.Base.{
  ℕ, ◌-◌, ◌≤◌, ◌≡◌, refl, ap, sym, subst, true, false, List, [], ◌∷◌, Option, none, some, length,
  length-drop, ltb, Bool-cases, Option-cases, inl, inr, arith, ◌∙◌,
}
use mirage_chaff.Base.Text.{Text, text_eq, text_eq_iff}
use mirage_chaff.Base.Dict.{
  Dict, lookup, insert, delete, lookup-insert, lookup-delete, lookup-insert_self, text_key,
}
use mirage_chaff.Base.Keys.{HasUniqueKeys, insert-HasUniqueKeys, delete-HasUniqueKeys}
use mirage_chaff.Managed.Types.{Entry, Source, Manager}
use mirage_chaff.Managed.Overrides.{newest, newer, is_present, max_rollbacks}
use mirage_chaff.Managed.Sources.{purge, delete_source}
use mirage_chaff.Managed.Sources.Deleted.{delete_source-lookup}
use mirage_chaff.Managed.Imports.{drop_entries, put_entries, apply_entries}
use mirage_chaff.Managed.Imports.Applied.{unless_owned, apply_entries-lookup}
use mirage_chaff.Managed.Sync.{store_source, accept_import, keep_pending}
use mirage_chaff.Managed.Invariant.{IsValid}

pub length-newest {ℓ} : {A : Type ℓ} (xs : List A) → length (newest xs) ≤ max_rollbacks
unfolding newest
length-newest xs = elim (Bool-cases (ltb max_rollbacks (length xs))) [
  | inl e ↦ rw e (omega (arith, length-drop (length xs - max_rollbacks) xs))
  | inr e ↦ rw e (ground arith)
]

drop_entries-HasUniqueKeys :
    (id : Text) (es entries : Dict Text Entry) (seen : Dict Text ℕ)
    → HasUniqueKeys entries
    → HasUniqueKeys (drop_entries id es (entries, seen)).0
unfolding drop_entries
drop_entries-HasUniqueKeys id [] entries seen u = u
drop_entries-HasUniqueKeys id ((eid, e) ∷ es) entries seen u =
    elim (Bool-cases (text_eq e.source_name id)) [
      | inl q ↦
          rw (q, drop_entries)
            (drop_entries-HasUniqueKeys id es (delete eid entries) (delete eid seen)
              (delete-HasUniqueKeys eid entries u))
      | inr q ↦ rw (q, drop_entries) (drop_entries-HasUniqueKeys id es entries seen u)
    ]

put_entries-HasUniqueKeys :
    (id : Text) (es : List Entry) (d : Dict Text Entry)
    → HasUniqueKeys d
    → HasUniqueKeys (put_entries id es d)
unfolding put_entries
put_entries-HasUniqueKeys id [] d u = u
put_entries-HasUniqueKeys id (e ∷ es) d u =
    put_entries-HasUniqueKeys id es (insert e.id (record e { source_name = id }) d)
      (insert-HasUniqueKeys e.id (record e { source_name = id }) d u)

purge-HasUniqueKeys :
    (id : Text) (es : Dict Text Entry) (m : Manager)
    → HasUniqueKeys m.entries
    → HasUniqueKeys (purge id es m).entries
unfolding purge
purge-HasUniqueKeys id [] m u = u
purge-HasUniqueKeys id ((eid, e) ∷ es) m u = elim (Bool-cases (text_eq e.source_name id)) [
  | inl q ↦
      rw (q, purge)
        (purge-HasUniqueKeys id es
          (record m {
            entries = delete eid m.entries;
            overrides = delete eid m.overrides;
            feed_seen = delete eid m.feed_seen;
          })
          (delete-HasUniqueKeys eid m.entries u))
  | inr q ↦ rw (q, purge) (purge-HasUniqueKeys id es m u)
]

-- An imported entry belongs to the source of the import.
put_entries-owner :
    (id k : Text) (es : List Entry) (d : Dict Text Entry) (e : Entry)
    → ((v : Entry) → lookup k d ≡ some v → v.source_name ≡ id)
    → lookup k (put_entries id es d) ≡ some e
    → e.source_name ≡ id
unfolding put_entries
put_entries-owner id k [] d e own h = own e h
put_entries-owner id k (x ∷ es) d e own h =
    let r = record x { source_name = id } in
    put_entries-owner id k es (insert x.id r d) e
      (λ v q. elim (Bool-cases (text_eq x.id k)) [
        | inl same ↦
            let found = rw (lookup-insert x.id k r d, same) at q in
            let is_r : r ≡ v = cc in subst (λ (y : Entry). y.source_name ≡ id) is_r refl
        | inr other ↦ own v (rw (lookup-insert x.id k r d, other) at q)
      ])
      h

no_entry-owner : (id k : Text) (e : Entry) → lookup k [] ≡ some e → e.source_name ≡ id
unfolding lookup
no_entry-owner id k e h = absurd cc

-- A source that is there stays when another is stored.
pub present-insert :
    (id j : Text) (src : Source) (d : Dict Text Source)
    → is_present (lookup j d) ≡ true
    → is_present (lookup j (insert id src d)) ≡ true
present-insert id j src d h = rw (lookup-insert id j src d) (ground arith)

pub present-insert_self :
    (id : Text) (src : Source) (d : Dict Text Source)
    → is_present (lookup id (insert id src d)) ≡ true
present-insert_self id src d = rw (lookup-insert_self id src d)

pub store_source-IsValid :
    (id : Text) (src : Source) (m : Manager) → IsValid m → IsValid (store_source id src m)
unfolding store_source
store_source-IsValid id src m v = record {
  unique = v.unique;
  known = λ k e h. present-insert id e.source_name src m.sources (v.known k e h);
  waiting = λ j h. present-insert id j src m.sources (v.waiting j h);
  few_rollbacks = v.few_rollbacks;
  short_history = v.short_history;
}

unless_owned-some :
    (id : Text) (o : Option Entry) (e : Entry)
    → unless_owned id o ≡ some e
    → (o ≡ some e) × (text_eq e.source_name id ≡ false)
unless_owned-some id none e h = absurd cc
unless_owned-some id (some x) e h = elim (Bool-cases (text_eq x.source_name id)) [
  | inl q ↦ absurd (cc (rw q at h))
  | inr q ↦
      let same : x ≡ e = cc (rw q at h) in
      (ap some same, subst (λ (y : Entry). text_eq y.source_name id ≡ false) same q)
]

pub accept_import-IsValid :
    (id : Text) (es : List Entry) (m : Manager)
    → is_present (lookup id m.sources) ≡ true
    → IsValid m
    → IsValid (accept_import id es m)
unfolding accept_import apply_entries newer
accept_import-IsValid id es m there v = record {
  unique =
      put_entries-HasUniqueKeys id es (drop_entries id m.entries (m.entries, m.feed_seen)).0
        (drop_entries-HasUniqueKeys id m.entries m.entries m.feed_seen v.unique);
  known = λ k e h.
      let form = sym (apply_entries-lookup id k es m v.unique) ∙ h in
      elim (Option-cases (lookup k (put_entries id es []))) [
        | inl n ↦
            let (old, other) =
              unless_owned-some id (lookup k m.entries) e (rw (n, newer) at form) in
            v.known k e old
        | inr (x, q) ↦
            let same : x ≡ e = cc (rw (q, newer) at form) in
            let owner = put_entries-owner id k es [] e (no_entry-owner id k) (q ∙ ap some same) in
            subst (λ s. is_present (lookup s m.sources) ≡ true) (sym owner) there
      ];
  waiting = λ j h. elim (Bool-cases (text_eq id j)) [
    | inl q ↦ subst (λ s. is_present (lookup s m.sources) ≡ true) ((text_eq_iff id j).0 q) there
    | inr q ↦ v.waiting j (rw (lookup-delete id j m.pending, q) at h)
  ];
  few_rollbacks = v.few_rollbacks;
  short_history = v.short_history;
}

pub keep_pending-IsValid :
    (id : Text) (es : List Entry) (m : Manager)
    → is_present (lookup id m.sources) ≡ true
    → IsValid m
    → IsValid (keep_pending id es m)
unfolding keep_pending
keep_pending-IsValid id es m there v = record {
  unique = v.unique;
  known = v.known;
  waiting = λ j h. elim (Bool-cases (text_eq id j)) [
    | inl q ↦ subst (λ s. is_present (lookup s m.sources) ≡ true) ((text_eq_iff id j).0 q) there
    | inr q ↦ v.waiting j (rw (lookup-insert id j es m.pending, q) at h)
  ];
  few_rollbacks = v.few_rollbacks;
  short_history = v.short_history;
}

-- A source that is there is still there when another one is deleted.
present-delete :
    (id j : Text) (d : Dict Text Source)
    → text_eq id j ≡ false
    → is_present (lookup j d) ≡ true
    → is_present (lookup j (delete id d)) ≡ true
present-delete id j d q h = rw (lookup-delete id j d, q) h

purge-histories :
    (id : Text) (es : Dict Text Entry) (m : Manager)
    → ((purge id es m).rollbacks ≡ m.rollbacks)
      × ((purge id es m).feed_history ≡ m.feed_history)
      × ((purge id es m).sources ≡ m.sources)
      × ((purge id es m).pending ≡ m.pending)
unfolding purge
purge-histories id [] m = (refl, refl, refl, refl)
purge-histories id ((eid, e) ∷ es) m = elim (Bool-cases (text_eq e.source_name id)) [
  | inl q ↦
      rw (q, purge)
        (purge-histories id es (record m {
          entries = delete eid m.entries;
          overrides = delete eid m.overrides;
          feed_seen = delete eid m.feed_seen;
        }))
  | inr q ↦ rw (q, purge) (purge-histories id es m)
]

pub delete_source-IsValid : (id : Text) (m : Manager) → IsValid m → IsValid (delete_source id m)
unfolding delete_source
delete_source-IsValid id m v =
    let m' = record m { sources = delete id m.sources; pending = delete id m.pending } in
    let frame = purge-histories id m.entries m' in
    let after = delete_source-lookup id m v.unique in
    record {
      unique = purge-HasUniqueKeys id m.entries m' v.unique;
      known = λ k e h.
          let (old, other) = unless_owned-some id (lookup k m.entries) e (sym (after.2 k).0 ∙ h) in
          let apart : text_eq id e.source_name ≡ false =
            ground (arith, text_eq_iff id e.source_name, text_eq_iff e.source_name id) in
          ap (λ d. is_present (lookup e.source_name d)) frame.2
          ∙ present-delete id e.source_name m.sources apart (v.known k e old);
      waiting = λ j h.
          let waits = ap (λ d. is_present (lookup j d)) (sym frame.3) ∙ h in
          elim (Bool-cases (text_eq id j)) [
            | inl q ↦ absurd (cc (rw (lookup-delete id j m.pending, q) at waits))
            | inr q ↦
                ap (λ d. is_present (lookup j d)) frame.2
                ∙ present-delete id j m.sources q
                    (v.waiting j (rw (lookup-delete id j m.pending, q) at waits))
          ];
      few_rollbacks = subst (λ r. length r ≤ max_rollbacks) (sym frame.0) v.few_rollbacks;
      short_history = subst (λ r. length r ≤ max_rollbacks) (sym frame.1) v.short_history;
    }
