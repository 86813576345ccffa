-- ===== src/Observability/Recorder/Stream.antt =====
-- internal/observability/record.go: what a reader sees that asks SnapshotSince again and again, as the
-- stream of the administration site does (internal/admin/handlers.go).
use mirage_chaff.Base.{
  ◌≡◌, refl, sym, ap, ℕ, ◌+◌, ◌-◌, ◌≤◌, true, false, List, [], ◌∷◌, ◌++◌, suc, length, drop, leb,
  All, arith, length-append, length-drop, drop-length_append,
}
use mirage_chaff.Observability.Records.{Record, Options, Recorder}
use mirage_chaff.Observability.Recorder.{
  new_recorder_with_options, log, buffered, last_of, shown, snapshot_since,
}
use mirage_chaff.Observability.Recorder.Rotate.{drop-drop, last_of-drop, last_of-all}
use mirage_chaff.Observability.Recorder.Ring.{
  HoldsLast, log_all, log_all-HoldsLast, buffered-log_all, stored, stored-log_all, shown-log_all,
  capacity, new_recorder-HoldsLast,
}

module _ {ℓ} {A : Type ℓ} where
  -- Of a list, the elements behind a first part, or the last n of them.
  pub last_of-append :
      (n : ℕ) (xs ys : List A) → last_of (length ys) (last_of n (xs ++ ys)) ≡ last_of n ys
  last_of-append n xs ys =
      let whole = xs ++ ys in
      let size : length whole ≡ length xs + length ys = length-append xs ys in
      let kept = drop (length whole - n) whole in
      let left : length kept ≡ length whole - (length whole - n) =
        length-drop (length whole - n) whole in
      let from = length xs + (length ys - n) in
      let twice =
        drop-drop (length kept - length ys) (length whole - n) from whole
          (omega (arith, size, left)) in
      let behind = drop-drop (length ys - n) (length xs) from whole refl in
      rw (
        last_of-drop n whole,
        last_of-drop (length ys) kept,
        twice,
        last_of-drop n ys,
        sym behind,
        drop-length_append xs ys,
      )

length-stored : (r : Recorder) (recs : List (ℕ × Record)) → length (stored r recs) ≡ length recs
unfolding stored
length-stored r [] = refl
length-stored r ((now, rec) ∷ recs) = ap suc (length-stored r recs)

total-log_all :
    (recs : List (ℕ × Record)) (r : Recorder) → (log_all recs r).total ≡ r.total + length recs
unfolding log_all log
total-log_all [] r = omega arith
total-log_all ((now, rec) ∷ recs) r = omega (arith, total-log_all recs (log now rec r))

shown-nil : (now : ℕ) (r : Recorder) → shown now r [] ≡ []
unfolding shown
shown-nil now r = ground arith

snapshot_since-nil :
    (n : ℕ) (r : Recorder) (now : ℕ)
    → snapshot_since now r.total (log_all [] r)
      ≡ (shown now r (last_of n (stored r [])), r.total + 0)
unfolding snapshot_since log_all stored
snapshot_since-nil n r now =
    let same : leb r.total r.total ≡ true = ground arith in
    let none = last_of-all {A = Record} n [] (omega arith) in
    rw (same, none, shown-nil now r) (ap (λ t. ([], t)) (omega arith))

-- One question to the recorder: what is new since the question before.
pub snapshot_since-log_all :
    (n : ℕ) (seen : List Record) (r : Recorder) (recs : List (ℕ × Record)) (now : ℕ)
    → HoldsLast n seen r
    → snapshot_since now r.total (log_all recs r)
      ≡ (shown now r (last_of n (stored r recs)), r.total + length recs)
unfolding snapshot_since
snapshot_since-log_all n seen r [] now held = snapshot_since-nil n r now
snapshot_since-log_all n seen r (rec ∷ recs) now held =
    let all = rec ∷ recs in
    let total = total-log_all all r in
    let newer : leb (r.total + length all) r.total ≡ false = ground arith in
    let many : r.total + length all - r.total ≡ length (stored r all) =
      omega (arith, length-stored r all) in
    let kept = buffered-log_all n all seen r held in
    let after = log_all all r in
    let same = shown-log_all now r all (last_of (after.total - r.total) (buffered after)) in
    rw (same, kept, total, newer, many, last_of-append n seen (stored r all))

-- The stream of `handleTrafficStream`: before each tick some records are logged. What the reader is
-- sent.
unfoldable pub traffic_stream : List (List (ℕ × Record) × ℕ) → ℕ → Recorder → List Record
traffic_stream [] seq r = []
traffic_stream ((recs, now) ∷ ticks) seq r =
    let logged = log_all recs r in
    let answer = snapshot_since now seq logged in answer.0 ++ traffic_stream ticks answer.1 logged

-- What was logged before each tick, as it is shown at that tick.
unfoldable pub logged_records : Recorder → List (List (ℕ × Record) × ℕ) → List Record
logged_records r [] = []
logged_records r ((recs, now) ∷ ticks) = shown now r (stored r recs) ++ logged_records r ticks

-- A second of traffic that the ring can hold.
abbrev pub Fits : ℕ → List (ℕ × Record) × ℕ → Type 0
Fits n tick = length tick.0 ≤ n

logged_records-log_all :
    (recs : List (ℕ × Record)) (r : Recorder) (ticks : List (List (ℕ × Record) × ℕ))
    → logged_records (log_all recs r) ticks ≡ logged_records r ticks
unfolding logged_records
logged_records-log_all recs r [] = refl
logged_records-log_all recs r ((more, now) ∷ ticks) = rw (
  stored-log_all r recs more,
  shown-log_all now r recs (stored r more),
  logged_records-log_all recs r ticks,
)

traffic_stream-from :
    (n : ℕ) (seen : List Record) (r : Recorder) (ticks : List (List (ℕ × Record) × ℕ))
    → HoldsLast n seen r
    → All (Fits n) ticks
    → traffic_stream ticks r.total r ≡ logged_records r ticks
unfolding traffic_stream logged_records
traffic_stream-from n seen r [] held fits = refl
traffic_stream-from n seen r ((recs, now) ∷ ticks) held (fit, fits) =
    let answer = snapshot_since-log_all n seen r recs now held in
    let whole = last_of-all n (stored r recs) (omega (arith, length-stored r recs)) in
    let rest =
      traffic_stream-from n (seen ++ stored r recs) (log_all recs r) ticks
        (log_all-HoldsLast n recs seen r held) fits in
    rw (answer, whole, sym (total-log_all recs r), rest, logged_records-log_all recs r ticks)

-- A reader who joins at any time is sent every record that is logged from then on, once and in the
-- order of the log, where no second brings more records than the ring has places.
pub traffic_stream-logged_records :
    (opts : Options) (ring_size : ℕ) (earlier : List (ℕ × Record))
    (ticks : List (List (ℕ × Record) × ℕ))
    → All (Fits (capacity ring_size)) ticks
    → (let r = log_all earlier (new_recorder_with_options opts ring_size) in
        traffic_stream ticks r.total r ≡ logged_records r ticks)
traffic_stream-logged_records opts ring_size earlier ticks fits =
    let new = new_recorder_with_options opts ring_size in
    let n = capacity ring_size in
    traffic_stream-from n (stored new earlier) (log_all earlier new) ticks
      (log_all-HoldsLast n earlier [] new (new_recorder-HoldsLast opts ring_size)) fits
