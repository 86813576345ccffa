-- ===== src/Observability/Recorder/Ring.antt =====
-- internal/observability/record.go: the ring of Recorder against a list of the last records.
use mirage_chaff.Base.{
  ◌≡◌, refl, sym, ap, ℕ, List, [], ◌∷◌, ◌++◌, ◌==◌, if◌then◌else◌, arith, ◌∙◌, append_assoc,
  append-nil, length-replicate,
}
use mirage_chaff.Observability.Records.{Record, Options, Recorder}
use mirage_chaff.Observability.Recorder.{
  new_recorder_with_options, log, buffered, last_of, snapshot, shown, no_record,
}
use mirage_chaff.Observability.Modes.{apply_policy}
use mirage_chaff.Observability.Recorder.Rotate.{last_of-all, IsLast, set_at-IsLast}

-- The ring has n places, and holds the last n records of the list.
abbrev pub HoldsLast : ℕ → List Record → Recorder → Type 0
HoldsLast n recs r = IsLast n recs r.ring r.next r.full

pub log-HoldsLast :
    (n : ℕ) (recs : List Record) (r : Recorder) (now : ℕ) (rec : Record)
    → HoldsLast n recs r
    → HoldsLast n (recs ++ apply_policy now r rec ∷ []) (log now rec r)
unfolding log buffered
log-HoldsLast n recs r now rec held =
    set_at-IsLast n r.full r.next r.ring recs (apply_policy now r rec) held

-- Logging records one after the other, each at its time.
unfoldable pub log_all : List (ℕ × Record) → Recorder → Recorder
log_all [] r = r
log_all ((now, rec) ∷ recs) r = log_all recs (log now rec r)

-- The records as the recorder keeps them.
unfoldable pub stored : Recorder → List (ℕ × Record) → List Record
stored r [] = []
stored r ((now, rec) ∷ recs) = apply_policy now r rec ∷ stored r recs

-- Logging does not change how records are kept.
stored-log :
    (now : ℕ) (rec : Record) (r : Recorder) (recs : List (ℕ × Record))
    → stored (log now rec r) recs ≡ stored r recs
unfolding stored log apply_policy
stored-log now rec r [] = refl
stored-log now rec r ((later, next) ∷ recs) =
    ap (◌∷◌ (apply_policy later r next)) (stored-log now rec r recs)

pub stored-log_all :
    (r : Recorder) (recs more : List (ℕ × Record)) → stored (log_all recs r) more ≡ stored r more
unfolding log_all
stored-log_all r [] more = refl
stored-log_all r ((now, rec) ∷ recs) more =
    stored-log_all (log now rec r) recs more ∙ stored-log now rec r more

shown-log :
    (at : ℕ) (rec : Record) (r : Recorder) (now : ℕ) (kept : List Record)
    → shown now (log at rec r) kept ≡ shown now r kept
unfolding shown log apply_policy
shown-log at rec r now kept = refl

-- Nor how they are shown.
pub shown-log_all :
    (now : ℕ) (r : Recorder) (recs : List (ℕ × Record)) (kept : List Record)
    → shown now (log_all recs r) kept ≡ shown now r kept
unfolding log_all
shown-log_all now r [] kept = refl
shown-log_all now r ((at, rec) ∷ recs) kept =
    shown-log_all now (log at rec r) recs kept ∙ shown-log at rec r now kept

pub log_all-HoldsLast :
    (n : ℕ) (recs : List (ℕ × Record)) (seen : List Record) (r : Recorder)
    → HoldsLast n seen r
    → HoldsLast n (seen ++ stored r recs) (log_all recs r)
unfolding log_all stored
log_all-HoldsLast n [] seen r held = rw (append-nil seen) held
log_all-HoldsLast n ((now, rec) ∷ recs) seen r held =
    let next = log-HoldsLast n seen r now rec held in
    rw
      (
        sym (append_assoc seen (apply_policy now r rec ∷ []) (stored r recs)),
        sym (stored-log now rec r recs),
      )
      (log_all-HoldsLast n recs (seen ++ apply_policy now r rec ∷ []) (log now rec r) next)

pub buffered-log_all :
    (n : ℕ) (recs : List (ℕ × Record)) (seen : List Record) (r : Recorder)
    → HoldsLast n seen r
    → buffered (log_all recs r) ≡ last_of n (seen ++ stored r recs)
unfolding buffered
buffered-log_all n recs seen r held = (log_all-HoldsLast n recs seen r held).2

-- The places of a new ring.
abbrev pub capacity : ℕ → ℕ
capacity ring_size = if ring_size == 0 then 1_024 else ring_size

pub new_recorder-HoldsLast :
    (opts : Options) (ring_size : ℕ)
    → HoldsLast (capacity ring_size) [] (new_recorder_with_options opts ring_size)
unfolding new_recorder_with_options
new_recorder-HoldsLast opts ring_size = (
  length-replicate (capacity ring_size) no_record,
  ground arith,
  sym (last_of-all (capacity ring_size) [] (omega arith)),
)

-- A recorder keeps the last records that it logged, as many as its ring has places, and a snapshot
-- shows them in the order of the log.
pub snapshot-log_all :
    (opts : Options) (ring_size : ℕ) (recs : List (ℕ × Record)) (now : ℕ)
    → (let new = new_recorder_with_options opts ring_size in
        snapshot now 0 (log_all recs new)
        ≡ shown now new (last_of (capacity ring_size) (stored new recs)))
unfolding snapshot
snapshot-log_all opts ring_size recs now =
    let new = new_recorder_with_options opts ring_size in
    let held =
      buffered-log_all (capacity ring_size) recs [] new (new_recorder-HoldsLast opts ring_size) in
    rw (held, shown-log_all now new recs (last_of (capacity ring_size) (stored new recs)))
