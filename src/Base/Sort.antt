-- ===== src/Base/Sort.antt =====
-- `sort.Slice` and `sort.Strings`, by insertion: which sorted order Go leaves among equals is open.
use mirage_chaff.Base.Tests.{if◌then◌else◌, ltb, ◌==◌}
use mathlib.Core.Bool.{Bool, true, false, ◌&&◌, ◌||◌}
use mathlib.Core.List.{List, [], ◌∷◌}
use mirage_chaff.Base.Text.{Text, text_eq}

-- `a < b` on Go strings.
unfoldable pub text_lt : Text → Text → Bool
text_lt s [] = false
text_lt [] (d ∷ t) = true
text_lt (c ∷ s) (d ∷ t) = ltb c d || ((c == d) && text_lt s t)

module _ {ℓ} {A : Type ℓ} (less : A → A → Bool) where
  unfoldable pub insert_by : A → List A → List A
  insert_by a [] = a ∷ []
  insert_by a (x ∷ xs) = if less a x then a ∷ x ∷ xs else x ∷ insert_by a xs

  unfoldable pub sort_by : List A → List A
  sort_by [] = []
  sort_by (a ∷ xs) = insert_by a (sort_by xs)

-- `if a.k != b.k { return a.k < b.k }; return rest`
unfoldable pub then_by : Text → Text → Bool → Bool
then_by k j rest = if text_eq k j then rest else text_lt k j
