-- ===== src/Policy/Aggregator/Lru/Bound.antt =====
-- How long the aggregator's list gets.
use mirage_chaff.Base.{
  ℕ, ◌+◌, ◌-◌, ◌≤◌, ◌<◌, ◌≡◌, refl, List, [], ◌∷◌, some, leb, length, Bool-cases, Option-cases, inl,
  inr, arith, tests,
}
use mirage_chaff.Base.Text.{Text, text_eq}
use mirage_chaff.Policy.Aggregator.{UnmatchedEntry, entry_key}
use mirage_chaff.Policy.Aggregator.Lru.{key_of, find, remove, drop_last, see}

length-remove :
    (k : Text) (es : List UnmatchedEntry) (e : UnmatchedEntry)
    → find k es ≡ some e
    → length (remove k es) + 1 ≡ length es
unfolding find remove
length-remove k [] e h = absurd cc
length-remove k (f ∷ es) e h = elim (Bool-cases (text_eq (key_of f) k)) [
  | inl y ↦ rw y (omega arith)
  | inr n ↦ rw n (omega (arith, length-remove k es e (rw n at h)))
]

length-drop_last : (es : List UnmatchedEntry) → length (drop_last es) ≡ length es - 1
unfolding drop_last
length-drop_last [] = refl
length-drop_last (e ∷ []) = refl
length-drop_last (e ∷ f ∷ es) = omega (arith, length-drop_last (f ∷ es))

pub length-see :
    (max : ℕ) (domain path : Text) (now : ℕ) (es : List UnmatchedEntry)
    → 0 < max
    → length es ≤ max
    → length (see max domain path now es) ≤ max
unfolding see
length-see max domain path now es p h = elim (Option-cases (find (entry_key domain path) es)) [
  | inr (e, f) ↦ rw (see, f) (omega (arith, length-remove (entry_key domain path) es e f))
  | inl f ↦ elim (Bool-cases (leb max (length es))) [
    | inl y ↦ rw (see, f, y) (omega (tests, length-drop_last es))
    | inr n ↦ rw (see, f, n) (ground (arith, n))
  ]
]
