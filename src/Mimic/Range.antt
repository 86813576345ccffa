-- ===== src/Mimic/Range.antt =====
-- internal/mimic/handler.go: parseRange. The size and the bounds are of type int64.
pub mod Bounds
use mirage_chaff.Base.{
  ℕ, zero, suc, ◌+◌, ◌-◌, ◌*◌, ◌^◌, Bool, true, false, not, ◌&&◌, ◌||◌, List, [], ◌∷◌, Option, none,
  some, leb, ltb, ◌==◌, if◌then◌else◌,
}
use mirage_chaff.Base.Text.{Text, codes, text_eq}
use mirage_chaff.Base.Strings.{has_prefix, trim_prefix}

-- The value of decimal digits behind `n`, none at any other character. ParseInt fails above the
-- bounds of int64; they are tested at the end here.
unfoldable pub digits : ℕ → Text → Option ℕ
digits n [] = some n
digits n (c ∷ s) = if leb b'0' c && leb c b'9' then digits (n * 10 + (c - b'0')) s else none

unfoldable pub digits_of : Text → Option ℕ
digits_of [] = none
digits_of (c ∷ s) = digits 0 (c ∷ s)

-- `strconv.ParseInt` in base 10 with 64 bits, as far as the callers go on: none for an error and for a
-- negative number, which they refuse alike.
unfoldable pub below_max : Option ℕ → Option ℕ
below_max none = none
below_max (some n) = if ltb n (2 ^ 63) then some n else none

-- A number with a sign: `-0` is 0, any other negative number is none.
unfoldable pub parse_natural : Text → Option ℕ
parse_natural [] = none
parse_natural (c ∷ s) =
    if c == b'+'
    then below_max (digits_of s)
    else if c == b'-'
    then elim (digits_of s) [ some zero ↦ some 0 | some (suc n) ↦ none | none ↦ none ]
    else below_max (digits_of (c ∷ s))

-- `strings.ContainsRune`
unfoldable pub has_char : ℕ → Text → Bool
has_char c [] = false
has_char c (d ∷ s) = (d == c) || has_char c s

-- The parts before and behind the first dash.
unfoldable pub split_dash : Text → Option (Text × Text)
split_dash [] = none
split_dash (c ∷ s) =
    if c == b'-'
    then some ([], s)
    else elim (split_dash s) [ none ↦ none | some (before, behind) ↦ some (c ∷ before, behind) ]

-- The last `n` bytes.
unfoldable pub suffix_range : ℕ → Text → Option (ℕ × ℕ)
suffix_range size behind = elim (parse_natural behind) [
  | none ↦ none
  | some zero ↦ none
  | some (suc n) ↦ if ltb size (suc n) then some (0, size - 1) else some (size - suc n, size - 1)
]

-- The end of a range that starts at `s`.
unfoldable pub range_end : ℕ → ℕ → Text → Option ℕ
range_end size s [] = some (size - 1)
range_end size s (c ∷ behind) = elim (parse_natural (c ∷ behind)) [
  | none ↦ none
  | some e ↦ if ltb e s then none else if leb size e then some (size - 1) else some e
]

unfoldable pub from_range : ℕ → Text → Text → Option (ℕ × ℕ)
from_range size before behind = elim (parse_natural before) [
  | none ↦ none
  | some s ↦
      if leb size s
      then none
      else elim (range_end size s behind) [ none ↦ none | some e ↦ some (s, e) ]
]

-- The switch.
unfoldable pub range_of : ℕ → Text → Text → Option (ℕ × ℕ)
range_of size [] [] = none
range_of size [] (c ∷ behind) = suffix_range size (c ∷ behind)
range_of size (c ∷ before) behind = from_range size (c ∷ before) behind

-- The first and the last byte, none for `ok == false`. The size is that of a decoy, not 0.
unfoldable pub parse_range : Text → ℕ → Option (ℕ × ℕ)
parse_range h size =
    if not (has_prefix h (codes "bytes="))
    then none
    else (let spec = trim_prefix h (codes "bytes=") in
        if has_char b',' spec then none else elim (split_dash spec) [
          | none ↦ none
          | some (before, behind) ↦ range_of size before behind
        ])
