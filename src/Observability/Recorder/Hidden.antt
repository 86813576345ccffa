-- ===== src/Observability/Recorder/Hidden.antt =====
-- internal/observability/record.go: what a change of the mode does to the records kept before it.
use mirage_chaff.Base.{
  ◌≡◌, ℕ, Bool, true, ◌||◌, List, [], ◌∷◌, map, All, inl, inr, Bool-cases, length, drop, leb, ltb,
  ◌==◌, arith, suc, zero, ◌-◌,
}
use mirage_chaff.Base.Text.{text_eq}
use mirage_chaff.Observability.Records.{Record, Recorder}
use mirage_chaff.Observability.Recorder.{shown, last_of, buffered, snapshot, snapshot_since}
use mirage_chaff.Observability.Modes.{apply_policy, mode_off, mode_stats}

abbrev pub HasNoPath : Record → Type 0
HasNoPath rec = rec.path ≡ []

-- Modes that keep no path.
abbrev pub hides : Recorder → Bool
hides r = text_eq r.mode mode_stats || text_eq r.mode mode_off

apply_policy-HasNoPath :
    (now : ℕ) (r : Recorder) (rec : Record) → hides r ≡ true → HasNoPath (apply_policy now r rec)
unfolding apply_policy
apply_policy-HasNoPath now r rec h = elim (Bool-cases (text_eq r.mode mode_off)) [
  | inl e ↦ rw e
  | inr e ↦ elim (Bool-cases (text_eq r.mode mode_stats)) [
    | inl f ↦ rw (e, f)
    | inr f ↦ absurd (cc (rw (e, f) at h))
  ]
]

map-HasNoPath :
    (now : ℕ) (r : Recorder) (recs : List Record)
    → hides r ≡ true
    → All HasNoPath (map (apply_policy now r) recs)
map-HasNoPath now r [] h = tt
map-HasNoPath now r (rec ∷ recs) h =
    (apply_policy-HasNoPath now r rec h, map-HasNoPath now r recs h)

shown-HasNoPath :
    (now : ℕ) (r : Recorder) (recs : List Record)
    → hides r ≡ true
    → All HasNoPath (shown now r recs)
unfolding shown
shown-HasNoPath now r recs h =
    let seen : (r.redact || text_eq r.mode mode_stats || text_eq r.mode mode_off) ≡ true =
      ground (arith, h) in
    rw seen (map-HasNoPath now r recs h)

All-drop {ℓ κ} : {A : Type ℓ} (P : A → Type κ) (n : ℕ) (xs : List A) → All P xs → All P (drop n xs)
All-drop P zero xs h = h
All-drop P (suc n) [] h = tt
All-drop P (suc n) (x ∷ xs) (h, hs) = All-drop P n xs hs

All-last_of {ℓ κ} :
    {A : Type ℓ} (P : A → Type κ) (n : ℕ) (xs : List A) → All P xs → All P (last_of n xs)
unfolding last_of
All-last_of P n xs h = elim (Bool-cases (ltb n (length xs))) [
  | inl e ↦ rw e (All-drop P (length xs - n) xs h)
  | inr e ↦ rw e h
]

-- In the modes `stats` and `off` no record that the recorder gives out has a path, also none that it
-- kept in another mode before.
pub snapshot-HasNoPath :
    (now n since : ℕ) (r : Recorder)
    → hides r ≡ true
    → All HasNoPath (snapshot now n r) × All HasNoPath (snapshot_since now since r).0
unfolding snapshot snapshot_since
snapshot-HasNoPath now n since r h =
    let all = shown-HasNoPath now r (buffered r) h in
    let new = shown-HasNoPath now r (last_of (r.total - since) (buffered r)) h in
    (
      elim (Bool-cases (n == 0)) [
        | inl e ↦ rw e all
        | inr e ↦ rw e (All-last_of HasNoPath n (shown now r (buffered r)) all)
      ],
      elim (Bool-cases (leb r.total since)) [ inl e ↦ rw e tt | inr e ↦ rw e new ],
    )
