-- ===== src/Observability/Recorder/Counters.antt =====
-- internal/observability/record.go: the counters of Recorder.
use mirage_chaff.Base.{
  ◌≡◌, ℕ, ◌+◌, Bool, List, [], ◌∷◌, inl, inr, Bool-cases, length, ◌==◌, if◌then◌else◌, arith, ◌∙◌,
}
use mirage_chaff.Base.Text.{Text, text_eq}
use mirage_chaff.Base.Dict.{Eq, Dict, lookup, lookup-insert, text_key, nat_key}
use mirage_chaff.Managed.Types.{or_else}
use mirage_chaff.Observability.Records.{Record, Options, Recorder}
use mirage_chaff.Observability.Recorder.{new_recorder_with_options, count, count_named, log}
use mirage_chaff.Observability.Recorder.Ring.{log_all}

-- How many records there are for which the test holds.
unfoldable pub number : (Record → Bool) → List (ℕ × Record) → ℕ
number p [] = 0
number p ((now, rec) ∷ recs) = (if p rec then 1 else 0) + number p recs

unfoldable pub sum_of : (Record → ℕ) → List (ℕ × Record) → ℕ
sum_of f [] = 0
sum_of f ((now, rec) ∷ recs) = f rec + sum_of f recs

-- The count of a key, 0 where there is none.
abbrev pub counted {ℓ} : {K : Type ℓ} ⦃e : Eq K⦄ → K → Dict K ℕ → ℕ
counted k d = or_else (lookup k d) 0

counted-count {ℓ} :
    {K : Type ℓ} ⦃e : Eq K⦄ (k j : K) (d : Dict K ℕ)
    → counted j (count k d) ≡ (if e.beq k j then 1 else 0) + counted j d
unfolding count
counted-count ⦃e⦄ k j d = elim (Bool-cases (e.beq k j)) [
  | inl eq ↦
      let same : k ≡ j = (e.beq_iff k j).0 eq in
      rw (lookup-insert k j (counted k d + 1) d, eq, same) (omega arith)
  | inr ne ↦ rw (lookup-insert k j (counted k d + 1) d, ne) (omega arith)
]

-- The same for a counter that leaves the empty key out.
counted-count_named :
    (k : Text) (b : ℕ) (bs : Text) (d : Dict Text ℕ)
    → counted (b ∷ bs) (count_named k d)
      ≡ (if text_eq k (b ∷ bs) then 1 else 0) + counted (b ∷ bs) d
unfolding count_named text_eq
counted-count_named [] b bs d = omega arith
counted-count_named (c ∷ cs) b bs d = counted-count (c ∷ cs) (b ∷ bs) d

-- A counter over all that is logged, from what one log adds to it.
module _ {ℓ} {K : Type ℓ} ⦃e : Eq K⦄ (k : K) (key : Record → K) (counter : Recorder → Dict K ℕ)
    (adds : (now : ℕ) (rec : Record) (r : Recorder)
      → counted k (counter (log now rec r))
        ≡ (if e.beq (key rec) k then 1 else 0) + counted k (counter r)) where
  counted-log_all :
      (recs : List (ℕ × Record)) (r : Recorder)
      → counted k (counter (log_all recs r))
        ≡ number (λ rec. e.beq (key rec) k) recs + counted k (counter r)
  unfolding log_all number
  counted-log_all [] r = omega arith
  counted-log_all ((now, rec) ∷ recs) r =
      omega (arith, counted-log_all recs (log now rec r), adds now rec r)

-- The counters of a recorder that has logged the records: of each action, of each status, of each
-- domain, rule and catalog entry that is named, of all records and of their bytes.
abbrev pub CountsAll : List (ℕ × Record) → Recorder → Type 0
CountsAll recs r =
    ((a : Text) → counted a r.by_action ≡ number (λ rec. text_eq rec.action a) recs)
    × ((s : ℕ) → counted s r.by_status ≡ number (λ rec. rec.status == s) recs)
    × ((b : ℕ) (bs : Text)
        → (counted (b ∷ bs) r.by_domain ≡ number (λ rec. text_eq rec.domain (b ∷ bs)) recs)
          × (counted (b ∷ bs) r.by_rule ≡ number (λ rec. text_eq rec.rule (b ∷ bs)) recs)
          × (counted (b ∷ bs) r.by_catalog ≡ number (λ rec. text_eq rec.catalog_id (b ∷ bs)) recs))
    × (r.total ≡ length recs)
    × (r.bytes_total ≡ sum_of (λ rec. rec.bytes) recs)

sums-log_all :
    (recs : List (ℕ × Record)) (r : Recorder)
    → ((log_all recs r).total ≡ length recs + r.total)
      × ((log_all recs r).bytes_total ≡ sum_of (λ rec. rec.bytes) recs + r.bytes_total)
unfolding log_all log sum_of
sums-log_all [] r = (omega arith, omega arith)
sums-log_all ((now, rec) ∷ recs) r =
    let (total, bytes) = sums-log_all recs (log now rec r) in
    (omega (arith, total), omega (arith, bytes))

-- A recorder's counters are right: each is the number of the logged records that it stands for, and
-- the sums are those of all records, also of those that the ring has lost.
pub log_all-CountsAll :
    (opts : Options) (ring_size : ℕ) (recs : List (ℕ × Record))
    → CountsAll recs (log_all recs (new_recorder_with_options opts ring_size))
unfolding new_recorder_with_options log lookup
log_all-CountsAll opts ring_size recs =
    let new = new_recorder_with_options opts ring_size in
    let (total, bytes) = sums-log_all recs new in
    (
      λ a.
          counted-log_all a (λ rec. rec.action) (λ r. r.by_action)
            (λ now rec r. counted-count rec.action a r.by_action) recs new
          ∙ omega arith,
      λ s.
          counted-log_all s (λ rec. rec.status) (λ r. r.by_status)
            (λ now rec r. counted-count rec.status s r.by_status) recs new
          ∙ omega arith,
      λ b bs. (
        counted-log_all (b ∷ bs) (λ rec. rec.domain) (λ r. r.by_domain)
              (λ now rec r. counted-count_named rec.domain b bs r.by_domain) recs new
            ∙ omega arith,
        counted-log_all (b ∷ bs) (λ rec. rec.rule) (λ r. r.by_rule)
              (λ now rec r. counted-count_named rec.rule b bs r.by_rule) recs new
            ∙ omega arith,
        counted-log_all (b ∷ bs) (λ rec. rec.catalog_id) (λ r. r.by_catalog)
              (λ now rec r. counted-count_named rec.catalog_id b bs r.by_catalog) recs new
            ∙ omega arith,
      ),
      omega (arith, total),
      omega (arith, bytes),
    )
