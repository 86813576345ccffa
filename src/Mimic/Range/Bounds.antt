-- ===== src/Mimic/Range/Bounds.antt =====
-- The ranges that parseRange gives.
use mirage_chaff.Base.{
  ℕ, zero, suc, ◌-◌, ◌^◌, ◌≤◌, ◌<◌, ◌≡◌, refl, subst, false, [], ◌∷◌, ◌++◌, Option, none, some, leb,
  ltb, ◌==◌, if◌then◌else◌, All, Bool-cases, Option-cases, inl, inr, arith, append-nil,
}
use mirage_chaff.Base.Text.{Text, codes}
use mirage_chaff.Base.Strings.{has_prefix, trim_prefix}
use mirage_chaff.Mimic.Range.{
  digits_of, below_max, parse_natural, has_char, split_dash, suffix_range, range_end, from_range,
  range_of, parse_range,
}

-- A range of bytes inside a body.
pub record IsInside (size : ℕ) (range : ℕ × ℕ) : Type 0 where
  pub ordered : range.0 ≤ range.1
  pub inside : range.1 < size

-- Whatever is given lies inside.
abbrev AllInside : ℕ → Option (ℕ × ℕ) → Type 0
AllInside size none = Unit {0}
AllInside size (some range) = IsInside size range

suffix_range-AllInside : (size : ℕ) (t : Text) → 0 < size → AllInside size (suffix_range size t)
unfolding suffix_range
suffix_range-AllInside size t p = elim (Option-cases (parse_natural t)) [
  | inl e ↦ rw (suffix_range, e) tt
  | inr (zero, e) ↦ rw (suffix_range, e) tt
  | inr (suc n, e) ↦ elim (Bool-cases (ltb size (suc n))) [
    | inl y ↦ rw (suffix_range, e, y) (record { ordered = omega arith; inside = omega arith })
    | inr k ↦ rw (suffix_range, e, k) (record { ordered = omega arith; inside = omega arith })
  ]
]

range_end-IsInside :
    (size n m : ℕ) (t : Text) → n < size → range_end size n t ≡ some m → IsInside size (n, m)
unfolding range_end
range_end-IsInside size n m [] h f =
    let same : size - 1 ≡ m = ground (arith, f) in
    record { ordered = omega (arith, h, same); inside = omega (arith, h, same) }
range_end-IsInside size n m (c ∷ t) h f = elim (Option-cases (parse_natural (c ∷ t))) [
  | inl e ↦ absurd (ground (arith, rw (range_end, e) at f))
  | inr (k, e) ↦
      let f' = rw (range_end, e) at f in
      record { ordered = ground (arith, f', h); inside = ground (arith, f', h) }
]

from_range-AllInside : (size : ℕ) (s t : Text) → AllInside size (from_range size s t)
unfolding from_range
from_range-AllInside size s t = elim (Option-cases (parse_natural s)) [
  | inl e ↦ rw (from_range, e) tt
  | inr (n, e) ↦ elim (Bool-cases (leb size n)) [
    | inl y ↦ rw (from_range, e, y) tt
    | inr k ↦ elim (Option-cases (range_end size n t)) [
      | inl f ↦ rw (from_range, e, k, f) tt
      | inr (m, f) ↦ rw (from_range, e, k, f) (range_end-IsInside size n m t (ground (arith, k)) f)
    ]
  ]
]

range_of-AllInside : (size : ℕ) (s t : Text) → 0 < size → AllInside size (range_of size s t)
unfolding range_of
range_of-AllInside size [] [] p = tt
range_of-AllInside size [] (c ∷ t) p = suffix_range-AllInside size (c ∷ t) p
range_of-AllInside size (c ∷ s) t p = from_range-AllInside size (c ∷ s) t

parse_range-AllInside : (h : Text) (size : ℕ) → 0 < size → AllInside size (parse_range h size)
unfolding parse_range
parse_range-AllInside h size p = elim (Bool-cases (has_prefix h (codes "bytes="))) [
  | inr n ↦ rw (parse_range, n) tt
  | inl y ↦
      let spec = trim_prefix h (codes "bytes=") in
      elim (Bool-cases (has_char b',' spec)) [
        | inl comma ↦ rw (parse_range, y, comma) tt
        | inr one ↦ elim (Option-cases (split_dash spec)) [
          | inl e ↦ rw (parse_range, y, one, e) tt
          | inr ((s, t), e) ↦ rw (parse_range, y, one, e) (range_of-AllInside size s t p)
        ]
      ]
]

-- A range that a header gives lies inside the decoy: its first byte is not behind its last, and the
-- last is a byte of the decoy, so that slicing the decoy by it is in range.
pub parse_range-IsInside :
    (h : Text) (size : ℕ) (range : ℕ × ℕ)
    → 0 < size
    → parse_range h size ≡ some range
    → IsInside size range
parse_range-IsInside h size range p e = subst (AllInside size) e (parse_range-AllInside h size p)

-- Digits and nothing else.
abbrev pub IsDigits : Text → Type 0
IsDigits s = All (λ c. (b'0' ≤ c) × (c ≤ b'9')) s

split_dash-digits : (s t : Text) → IsDigits s → split_dash (s ++ (b'-' ∷ t)) ≡ some (s, t)
unfolding split_dash
split_dash-digits [] t a = refl
split_dash-digits (c ∷ s) t a =
    let other : (c == b'-') ≡ false = ground (arith, a.0.0) in
    rw (other, split_dash, split_dash-digits s t a.1) refl

has_char-digits : (s t : Text) → IsDigits s → has_char b',' (s ++ t) ≡ has_char b',' t
unfolding has_char
has_char-digits [] t a = refl
has_char-digits (c ∷ s) t a =
    let other : (c == b',') ≡ false = ground (arith, a.0.0) in rw other (has_char-digits s t a.1)

parse_natural-digits :
    (s : Text) (n : ℕ) → IsDigits s → digits_of s ≡ some n → n < 2 ^ 63 → parse_natural s ≡ some n
unfolding parse_natural digits_of below_max
parse_natural-digits [] n a e h = absurd (ground (arith, e))
parse_natural-digits (c ∷ s) n a e h =
    let plus : (c == b'+') ≡ false = ground (arith, a.0.0) in
    let minus : (c == b'-') ≡ false = ground (arith, a.0.0) in
    rw (parse_natural, plus, minus, e) (ground (arith, h))

bounds-read :
    (size m n : ℕ) (a b : Text)
    → IsDigits a
    → IsDigits b
    → digits_of a ≡ some m
    → digits_of b ≡ some n
    → m ≤ n
    → n < 2 ^ 63
    → m < size
    → range_of size a b ≡ some (m, (if leb size n then size - 1 else n))
unfolding range_of from_range range_end digits_of
bounds-read size m n [] b da db ea eb h k l = absurd (ground (arith, ea))
bounds-read size m n (c ∷ a) [] da db ea eb h k l = absurd (ground (arith, eb))
bounds-read size m n (c ∷ a) (d ∷ b) da db ea eb h k l =
    let low : leb size m ≡ false = ground (arith, l) in
    let up : ltb n m ≡ false = ground (arith, h) in
    rw
      (
        from_range,
        parse_natural-digits (c ∷ a) m da ea (omega (arith, h, k)),
        low,
        range_end,
        parse_natural-digits (d ∷ b) n db eb k,
        up,
      )
      (ground arith)

-- Two decimal numbers, the first not above the second and inside the decoy, are read as the range
-- from the one to the other, cut at the decoy's last byte.
pub parse_range-digits :
    (size m n : ℕ) (a b : Text)
    → IsDigits a
    → IsDigits b
    → digits_of a ≡ some m
    → digits_of b ≡ some n
    → m ≤ n
    → n < 2 ^ 63
    → m < size
    → parse_range (codes "bytes=" ++ (a ++ (b'-' ∷ b))) size
      ≡ some (m, (if leb size n then size - 1 else n))
unfolding parse_range has_prefix trim_prefix has_char
parse_range-digits size m n a b da db ea eb h k l =
    let tail = has_char-digits b [] db in
    rw
      (
        parse_range,
        has_char-digits a (b'-' ∷ b) da,
        has_char,
        ← append-nil b,
        tail,
        append-nil b,
        split_dash-digits a b da,
      )
      (bounds-read size m n a b da db ea eb h k l)
