-- ===== src/Managed/Paging.antt =====
-- internal/aghmanaged/manager.go: cutting one page out of a list. Offset and limit come from a request
-- unchecked, and Go adds them as 64-bit integers: a sum from 2 ^ 63 on is negative.
pub mod Cut
use mirage_chaff.Base.{
  ℕ, ◌+◌, ◌-◌, Bool, List, Option, none, some, length, take, drop, ltb, leb, min, suc, zero,
  if◌then◌else◌,
}
use mirage_chaff.Base.Int.{ℤ, pos, negsuc}

pub record Page {ℓ} (A : Type ℓ) : Type ℓ where
  pub entries : List A
  pub total : ℕ
  pub limit : ℤ
  pub offset : ℕ

abbrev pub int_max : ℕ
int_max = 9_223_372_036_854_775_807

-- The offset between 0 and the length.
unfoldable pub clamp_offset : ℤ → ℕ → ℕ
clamp_offset (pos n) total = if ltb total n then total else n
clamp_offset (negsuc n) total = 0

-- The end of the page, none where the sum is negative.
unfoldable pub page_end : ℕ → ℤ → ℕ → Option ℕ
page_end offset (pos zero) total = some total
page_end offset (pos (suc n)) total =
    let end = offset + suc n in
    if ltb int_max end then none else some (if ltb end total then end else total)
page_end offset (negsuc n) total = some total

-- `s[offset:end]`, none where it panics.
unfoldable pub cut {ℓ} : {A : Type ℓ} → ℕ → Option ℕ → List A → Option (List A)
cut offset none xs = none
cut offset (some end) xs =
    if leb offset end then some (take (end - offset) (drop offset xs)) else none

-- The tail of `catalogPage`, of `FeedItemsPage` and of `PendingDiffEntriesPage`; none is a panic.
unfoldable pub page {ℓ} : {A : Type ℓ} → ℤ → ℤ → List A → Option (Page A)
page offset limit xs =
    let total = length xs in
    let start = clamp_offset offset total in
    elim (cut start (page_end start limit total) xs) [
      | none ↦ none
      | some entries ↦
          some (record { entries = entries; total = total; limit = limit; offset = start })
    ]
