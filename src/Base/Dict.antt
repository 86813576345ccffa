-- ===== src/Base/Dict.antt =====
-- Go maps as association lists, over any key type with a Boolean equality.
use Prim.Native.Nat.{ℕ, ◌+◌, ◌≤◌}
use mathlib.Core.Path.{◌≡◌, refl}
use mathlib.Core.Logic.{◌↔◌, inl, inr}
use mathlib.Core.Bool.{Bool, true, false}
use mathlib.Core.Option.{Option, none, some}
use mathlib.Core.List.{List, [], ◌∷◌}
use native.Mathlib.Omega.{arith}
use mirage_chaff.Base.Tests.{if◌then◌else◌, Bool-cases, ◌==◌, ==_iff}
use mirage_chaff.Base.Lists.{length}
use mirage_chaff.Base.Text.{Text, text_eq, text_eq_iff}

pub record Eq {ℓ} (A : Type ℓ) : Type ℓ where
  pub beq : A → A → Bool
  pub beq_iff : (a b : A) → (beq a b ≡ true) ↔ (a ≡ b)

instance abbrev pub text_key : Eq Text
text_key = record { beq = text_eq; beq_iff = text_eq_iff }

instance abbrev pub nat_key : Eq ℕ
nat_key = record { beq = ◌==◌; beq_iff = ==_iff }

abbrev pub Dict {ℓ κ} : Type ℓ → Type κ → Type (ℓ ⊔ κ)
Dict K V = List (K × V)

pub beq_refl {ℓ} : {K : Type ℓ} ⦃e : Eq K⦄ (k : K) → e.beq k k ≡ true
beq_refl ⦃e⦄ k = (e.beq_iff k k).1 refl

module _ {ℓ κ} {K : Type ℓ} {V : Type κ} ⦃e : Eq K⦄ where
  unfoldable pub lookup : K → Dict K V → Option V
  lookup k [] = none
  lookup k ((j, v) ∷ m) = if e.beq j k then some v else lookup k m

  unfoldable pub insert : K → V → Dict K V → Dict K V
  insert k v [] = (k, v) ∷ []
  insert k v ((j, w) ∷ m) = if e.beq j k then (k, v) ∷ m else (j, w) ∷ insert k v m

  -- Every entry of the key goes.
  unfoldable pub delete : K → Dict K V → Dict K V
  delete k [] = []
  delete k ((j, w) ∷ m) = if e.beq j k then delete k m else (j, w) ∷ delete k m

  pub lookup-insert :
      (k j : K) (v : V) (m : Dict K V)
      → lookup j (insert k v m) ≡ (if e.beq k j then some v else lookup j m)
  unfolding lookup insert
  lookup-insert k j v [] = refl
  lookup-insert k j v ((i, w) ∷ m) =
      ground (arith, e.beq_iff k j, e.beq_iff i k, e.beq_iff i j, lookup-insert k j v m)

  pub lookup-delete :
      (k j : K) (m : Dict K V) → lookup j (delete k m) ≡ (if e.beq k j then none else lookup j m)
  unfolding lookup delete
  lookup-delete k j [] = ground arith
  lookup-delete k j ((i, w) ∷ m) =
      ground (arith, e.beq_iff k j, e.beq_iff i k, e.beq_iff i j, lookup-delete k j m)

  pub lookup-insert_self : (k : K) (v : V) (m : Dict K V) → lookup k (insert k v m) ≡ some v
  lookup-insert_self k v m = rw (lookup-insert k k v m, beq_refl k)

  pub lookup-insert_ne :
      (k j : K) (v : V) (m : Dict K V) → ¬ (k ≡ j) → lookup j (insert k v m) ≡ lookup j m
  lookup-insert_ne k j v m h = rw (lookup-insert k j v m) (ground (arith, e.beq_iff k j))

  pub length-insert_le : (k : K) (v : V) (m : Dict K V) → length (insert k v m) ≤ length m + 1
  unfolding insert
  length-insert_le k v [] = omega arith
  length-insert_le k v ((j, w) ∷ m) = ground (arith, length-insert_le k v m)

  pub length-insert_old :
      (k : K) (v : V) (m : Dict K V) → ¬ (lookup k m ≡ none) → length (insert k v m) ≡ length m
  unfolding insert lookup
  length-insert_old k v [] h = absurd (h refl)
  length-insert_old k v ((j, w) ∷ m) h = elim (Bool-cases (e.beq j k)) [
    | inl eq ↦ rw eq
    | inr ne ↦ rw ne (ground (arith, length-insert_old k v m (rw ne at h)))
  ]

  pub length-delete_le : (k : K) (m : Dict K V) → length (delete k m) ≤ length m
  unfolding delete
  length-delete_le k [] = omega arith
  length-delete_le k ((j, w) ∷ m) = ground (arith, length-delete_le k m)

-- `for k, v := range m { if p(v) { delete(m, k) } }`
unfoldable pub delete_where {ℓ κ} : {K : Type ℓ} {V : Type κ} → (V → Bool) → Dict K V → Dict K V
delete_where p [] = []
delete_where p ((j, w) ∷ m) = if p w then delete_where p m else (j, w) ∷ delete_where p m

module _ {ℓ κ} {K : Type ℓ} {V : Type κ} ⦃e : Eq K⦄ (p : V → Bool) where
  pub lookup-delete_where_kept :
      (k : K) (m : Dict K V) (v : V)
      → lookup k m ≡ some v
      → p v ≡ false
      → lookup k (delete_where p m) ≡ some v
  unfolding lookup delete_where
  lookup-delete_where_kept k [] v h f = h
  lookup-delete_where_kept k ((j, w) ∷ m) v h f = ground (arith, lookup-delete_where_kept k m v)

  pub lookup-delete_where-none :
      (k : K) (m : Dict K V) → lookup k m ≡ none → lookup k (delete_where p m) ≡ none
  unfolding lookup delete_where
  lookup-delete_where-none k [] h = refl
  lookup-delete_where-none k ((j, w) ∷ m) h = ground (arith, lookup-delete_where-none k m)

  -- What is left does not meet the test.
  pub lookup-delete_where-some :
      (k : K) (m : Dict K V) (v : V) → lookup k (delete_where p m) ≡ some v → p v ≡ false
  unfolding lookup delete_where
  lookup-delete_where-some k [] v h = cc
  lookup-delete_where-some k ((j, w) ∷ m) v h = elim (Bool-cases (p w)) [
    | inl y ↦ lookup-delete_where-some k m v (rw y at h)
    | inr n ↦ elim (Bool-cases (e.beq j k)) [
      | inl q ↦ ground arith
      | inr q ↦ lookup-delete_where-some k m v (ground arith)
    ]
  ]
