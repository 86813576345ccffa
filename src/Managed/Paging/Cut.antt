-- ===== src/Managed/Paging/Cut.antt =====
-- Which part of the list a page is.
use mirage_chaff.Base.{
  ℕ, ◌+◌, ◌-◌, ◌≤◌, ◌≡◌, sym, Bool, false, List, none, some, length, take, drop, ltb, min, refl,
  suc, zero, if◌then◌else◌, arith, inl, inr, Bool-cases, take-all, le→leb, le→ltb, length-drop, ◌∙◌,
}
use mirage_chaff.Base.Int.{ℤ, pos, negsuc}
use mirage_chaff.Managed.Paging.{int_max, clamp_offset, page_end, cut, page}

clamp_offset-le : (z : ℤ) (n : ℕ) → clamp_offset z n ≤ n
unfolding clamp_offset
clamp_offset-le (pos k) n = ground arith
clamp_offset-le (negsuc k) n = omega arith

take-length {ℓ} : {A : Type ℓ} (n : ℕ) (xs : List A) → take (length xs - n) (drop n xs) ≡ drop n xs
take-length n xs = take-all (length xs - n) (drop n xs) (omega (arith, length-drop n xs))

take-past {ℓ} :
    {A : Type ℓ} (n k : ℕ) (xs : List A)
    → length xs ≤ n + k
    → take (length xs - n) (drop n xs) ≡ take k (drop n xs)
take-past n k xs h =
    take-length n xs ∙ sym (take-all k (drop n xs) (omega (arith, length-drop n xs)))

-- The rows of a page, where the sum of offset and limit is no overflow.
abbrev pub rows_of {ℓ} : {A : Type ℓ} → ℕ → ℤ → List A → List A
rows_of start (pos zero) xs = drop start xs
rows_of start (pos (suc n)) xs = take (suc n) (drop start xs)
rows_of start (negsuc n) xs = drop start xs

-- The limit takes the end of the page past the greatest integer.
abbrev pub overflows : ℕ → ℤ → Bool
overflows start (pos n) = ltb int_max (start + n)
overflows start (negsuc n) = false

-- The first row of a page: the offset, but not before the list nor behind its end.
abbrev pub first_row : ℤ → ℕ → ℕ
first_row (pos n) total = min n total
first_row (negsuc n) total = 0

clamp_offset-first_row : (z : ℤ) (n : ℕ) → clamp_offset z n ≡ first_row z n
unfolding clamp_offset
clamp_offset-first_row (pos k) n = elim (Bool-cases (ltb n k)) [
  | inl e ↦ rw e (ground (arith, e))
  | inr e ↦ rw e (ground (arith, e))
]
clamp_offset-first_row (negsuc k) n = refl

module _ {ℓ} {A : Type ℓ} (xs : List A) where
  cut-rows :
      (start : ℕ) (limit : ℤ)
      → start ≤ length xs
      → length xs ≤ int_max
      → cut start (page_end start limit (length xs)) xs
        ≡ (if overflows start limit then none else some (rows_of start limit xs))
  unfolding cut page_end
  cut-rows start (pos zero) h b =
      rw
        (le→leb start (length xs) h, le→ltb int_max (start + 0) (omega arith), take-length start xs)
  cut-rows start (pos (suc n)) h b = elim (Bool-cases (ltb int_max (start + suc n))) [
    | inl e ↦ rw e
    | inr e ↦ elim (Bool-cases (ltb (start + suc n) (length xs))) [
      | inl q ↦
          let width : (start + suc n) - start ≡ suc n = omega arith in
          rw (e, q, cut, le→leb start (start + suc n) (omega arith), width)
      | inr q ↦
          rw (e, q, cut, le→leb start (length xs) h, take-past start (suc n) xs (ground arith))
    ]
  ]
  cut-rows start (negsuc n) h b = rw (le→leb start (length xs) h, take-length start xs)

  -- A page is the rows from the offset on, from the first row where the offset is negative and none where
  -- it is past the end, as many of them as the limit where that is positive, else all; and the request
  -- panics exactly where the offset, cut to the list, and a positive limit sum to more than the
  -- greatest 64-bit integer. The list is not longer than that integer.
  pub page_rows :
      (offset limit : ℤ)
      → length xs ≤ int_max
      → page offset limit xs ≡ (
          let start = first_row offset (length xs) in
          if overflows start limit
          then none
          else some (record {
            entries = rows_of start limit xs;
            total = length xs;
            limit = limit;
            offset = start;
          }))
  unfolding page
  page_rows offset limit b =
      let start = clamp_offset offset (length xs) in
      rw (sym (clamp_offset-first_row offset (length xs)))
        (elim (Bool-cases (overflows start limit)) [
          | inl e ↦ rw (e, page, cut-rows start limit (clamp_offset-le offset (length xs)) b, e)
          | inr e ↦ rw (e, page, cut-rows start limit (clamp_offset-le offset (length xs)) b, e)
        ])
