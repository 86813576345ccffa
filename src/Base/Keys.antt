-- ===== src/Base/Keys.antt =====
-- Association lists whose keys are all different, as those of a map are.
use mathlib.Core.Path.{◌≡◌, refl, subst}
use mathlib.Core.Logic.{inl, inr}
use mathlib.Core.Bool.{false}
use mathlib.Core.Option.{none}
use mathlib.Core.List.{[], ◌∷◌}
use native.Mathlib.Omega.{arith}
use mirage_chaff.Base.Tests.{Bool-cases}
use mirage_chaff.Base.Dict.{
  Eq, Dict, lookup, insert, delete, lookup-insert, lookup-delete, beq_refl,
}

module _ {ℓ κ} {K : Type ℓ} {V : Type κ} ⦃e : Eq K⦄ where
  abbrev pub HasUniqueKeys : Dict K V → Type κ
  HasUniqueKeys [] = Unit {κ}
  HasUniqueKeys ((j, v) ∷ m) = (lookup j m ≡ none) × HasUniqueKeys m

  insert_absent :
      (k : K) (v : V) (j : K) (m : Dict K V)
      → e.beq j k ≡ false
      → lookup j m ≡ none
      → lookup j (insert k v m) ≡ none
  insert_absent k v j m q h =
      rw (lookup-insert k j v m) (ground (arith, e.beq_iff k j, e.beq_iff j k))

  delete_absent : (k j : K) (m : Dict K V) → lookup j m ≡ none → lookup j (delete k m) ≡ none
  delete_absent k j m h = rw (lookup-delete k j m) (ground arith)

  pub insert-HasUniqueKeys :
      (k : K) (v : V) (m : Dict K V) → HasUniqueKeys m → HasUniqueKeys (insert k v m)
  unfolding insert lookup
  insert-HasUniqueKeys k v [] h = (refl, tt)
  insert-HasUniqueKeys k v ((j, w) ∷ m) h = elim (Bool-cases (e.beq j k)) [
    | inl q ↦ rw q (subst (λ x. lookup x m ≡ none) ((e.beq_iff j k).0 q) h.0, h.1)
    | inr q ↦ rw q (insert_absent k v j m q h.0, insert-HasUniqueKeys k v m h.1)
  ]

  pub delete-HasUniqueKeys : (k : K) (m : Dict K V) → HasUniqueKeys m → HasUniqueKeys (delete k m)
  unfolding delete lookup
  delete-HasUniqueKeys k [] h = tt
  delete-HasUniqueKeys k ((j, w) ∷ m) h = elim (Bool-cases (e.beq j k)) [
    | inl q ↦ rw q (delete-HasUniqueKeys k m h.1)
    | inr q ↦ rw q (delete_absent k j m h.0, delete-HasUniqueKeys k m h.1)
  ]

  pub insert-insert : (k : K) (v w : V) (m : Dict K V) → insert k v (insert k w m) ≡ insert k v m
  unfolding insert
  insert-insert k v w [] = rw (beq_refl k)
  insert-insert k v w ((j, x) ∷ m) = elim (Bool-cases (e.beq j k)) [
    | inl q ↦ rw (q, insert, beq_refl k)
    | inr q ↦ rw (q, insert, q, insert-insert k v w m)
  ]

  pub delete-insert : (k : K) (w : V) (m : Dict K V) → delete k (insert k w m) ≡ delete k m
  unfolding insert delete
  delete-insert k w [] = rw (beq_refl k)
  delete-insert k w ((j, x) ∷ m) = elim (Bool-cases (e.beq j k)) [
    | inl q ↦ rw (q, delete, beq_refl k)
    | inr q ↦ rw (q, delete, q, delete-insert k w m)
  ]
