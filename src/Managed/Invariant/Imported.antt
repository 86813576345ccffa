-- ===== src/Managed/Invariant/Imported.antt =====
-- Changes of the sources and their imports keep the invariant.
use mirage_chaff.Base.{
  ℕ, ◌≤◌, ◌≡◌, refl, ap, sym, subst, Bool, true, false, List, length, Bool-cases, Option-cases, inl,
  inr, ◌∙◌,
}
use mirage_chaff.Base.Text.{Text, text_eq}
use mirage_chaff.Base.Dict.{lookup, delete, lookup-delete, text_key}
use mirage_chaff.Base.Keys.{HasUniqueKeys}
use mirage_chaff.Managed.Types.{Entry, CatalogOverride, Source, Manager, done}
use mirage_chaff.Managed.Overrides.{is_present, max_rollbacks, override_all, record_rollback}
use mirage_chaff.Managed.Sources.{upsert_source, with_defaults, keep_history, source_problem}
use mirage_chaff.Managed.Imports.{with_counts, large_change}
use mirage_chaff.Managed.Sync.{
  Fetched, failed, fetched, SyncRun, finish_with, settle, store_source, accept_import, with_failure,
  with_success, approve_source, reject_source,
}
use mirage_chaff.Managed.Invariant.{IsValid}
use mirage_chaff.Managed.Invariant.Sourced.{
  length-newest, store_source-IsValid, accept_import-IsValid, keep_pending-IsValid,
  present-insert_self,
}

stored_present :
    (id : Text) (src : Source) (m : Manager)
    → is_present (lookup id (store_source id src m).sources) ≡ true
unfolding store_source
stored_present id src m = present-insert_self id src m.sources

pub settle-IsValid :
    (review : Bool) (id : Text) (src : Source) (es : List Entry) (m : Manager)
    → IsValid m
    → IsValid (settle review id src es m).1
unfolding settle
settle-IsValid true id src es m v =
    let s = record src { pending_review = true } in
    keep_pending-IsValid id es (store_source id s m) (stored_present id s m)
      (store_source-IsValid id s m v)
settle-IsValid false id src es m v =
    let s = record src { pending_review = false } in
    accept_import-IsValid id es (store_source id s m) (stored_present id s m)
      (store_source-IsValid id s m v)

pub finish_with-IsValid :
    (result : Fetched) (id : Text) (src : Source) (run : SyncRun) (m : Manager)
    → IsValid m
    → IsValid (finish_with result id src run m).1
unfolding finish_with
finish_with-IsValid (failed message) id src run m v =
    store_source-IsValid id (with_failure message run src) m v
finish_with-IsValid (fetched es) id src run m v =
    let counted = with_counts id m.entries es (with_success run src) in
    settle-IsValid (large_change counted m.cfg.scheduler) id counted es m v

-- What the changes of overrides leave as it is.
abbrev pub SameRest : Manager → Manager → Type 0
SameRest m m' =
    (m'.entries ≡ m.entries)
    × (m'.sources ≡ m.sources)
    × (m'.pending ≡ m.pending)
    × (m'.feed_history ≡ m.feed_history)
    × (length m'.rollbacks ≤ max_rollbacks)

pub override_all-SameRest :
    (rb : Text × ℕ) (action summary : Text) (ids by : List Text) (ov : CatalogOverride)
    (m : Manager)
    → SameRest m (override_all rb action summary ids ov by m)
unfolding override_all record_rollback
override_all-SameRest rb action summary ids by ov m = (refl, refl, refl, refl, length-newest _)

pub SameRest-IsValid : (m m' : Manager) → IsValid m → SameRest m m' → IsValid m'
SameRest-IsValid m m' v (entries, sources, pending, history, few) = record {
  unique = subst HasUniqueKeys (sym entries) v.unique;
  known = λ k e h.
      ap (λ d. is_present (lookup e.source_name d)) sources
      ∙ v.known k e (ap (lookup k) (sym entries) ∙ h);
  waiting = λ id h.
      ap (λ d. is_present (lookup id d)) sources
      ∙ v.waiting id (ap (λ d. is_present (lookup id d)) (sym pending) ∙ h);
  few_rollbacks = few;
  short_history = subst (λ l. length l ≤ max_rollbacks) (sym history) v.short_history;
}

pub upsert_source-IsValid :
    (hash : Text → Text) (s src : Source) (m m' : Manager)
    → upsert_source hash s m ≡ done (src, m')
    → IsValid m
    → IsValid m'
unfolding upsert_source store_source
upsert_source-IsValid hash s src m m' h v =
    let given = with_defaults hash m.cfg.scheduler s in
    elim (Option-cases (source_problem given)) [
      | inr (problem, q) ↦ absurd (cc (rw (q, upsert_source) at h))
      | inl q ↦
          let kept = keep_history given (lookup given.id m.sources) in
          let same : store_source given.id kept m ≡ m' = cc (rw (q, upsert_source) at h) in
          subst IsValid same (store_source-IsValid given.id kept m v)
    ]

pub approve_source-IsValid :
    (id : Text) (src : Source) (m m' : Manager)
    → approve_source id m ≡ done (src, m')
    → IsValid m
    → IsValid m'
unfolding approve_source
approve_source-IsValid id src m m' h v = elim (Option-cases (lookup id m.sources)) [
  | inl q ↦ absurd (cc (rw (q, approve_source) at h))
  | inr (s, q) ↦ elim (Option-cases (lookup id m.pending)) [
    | inl p ↦ absurd (cc (rw (q, approve_source, p) at h))
    | inr (es, p) ↦
        let s' = record (with_counts id m.entries es s) { pending_review = false } in
        let same : store_source id s' (accept_import id es m) ≡ m' =
          cc (rw (q, approve_source, p) at h) in
        subst IsValid same (
          store_source-IsValid id s' (accept_import id es m)
            (accept_import-IsValid id es m (rw q) v))
  ]
]

pub drop_pending-IsValid :
    (id : Text) (m : Manager) → IsValid m → IsValid (record m { pending = delete id m.pending })
drop_pending-IsValid id m v = record {
  unique = v.unique;
  known = v.known;
  waiting = λ j h. elim (Bool-cases (text_eq id j)) [
    | inl q ↦ absurd (cc (rw (lookup-delete id j m.pending, q) at h))
    | inr q ↦ v.waiting j (rw (lookup-delete id j m.pending, q) at h)
  ];
  few_rollbacks = v.few_rollbacks;
  short_history = v.short_history;
}

pub reject_source-IsValid :
    (id : Text) (src : Source) (m m' : Manager)
    → reject_source id m ≡ done (src, m')
    → IsValid m
    → IsValid m'
unfolding reject_source
reject_source-IsValid id src m m' h v = elim (Option-cases (lookup id m.sources)) [
  | inl q ↦ absurd (cc (rw (q, reject_source) at h))
  | inr (s, q) ↦ elim (Option-cases (lookup id m.pending)) [
    | inl p ↦ absurd (cc (rw (q, reject_source, p) at h))
    | inr (es, p) ↦
        let s' = record s { pending_review = false } in
        let left = record m { pending = delete id m.pending } in
        let same : store_source id s' left ≡ m' = cc (rw (q, reject_source, p) at h) in
        subst IsValid same (store_source-IsValid id s' left (drop_pending-IsValid id m v))
  ]
]
