-- ===== src/Base/Members.antt =====
-- Membership by recursion, which the tactics read.
use Prim.Native.Nat.{suc, ◌+◌, ◌<◌}
use mathlib.Core.Path.{◌≡◌, refl, sym, ap, ◌∙◌}
use mathlib.Core.Logic.{◌⊎◌, inl, inr}
use mathlib.Core.Bool.{Bool}
use mathlib.Core.List.{List, [], ◌∷◌, ◌++◌, map}
use native.Mathlib.Omega.{arith}
use mirage_chaff.Base.Tests.{Bool-cases}
use mirage_chaff.Base.Lists.{length}
use mirage_chaff.Base.Sort.{insert_by, sort_by}

module _ {ℓ} {A : Type ℓ} where
  abbrev pub In : A → List A → Type ℓ
  In a [] = Unit {ℓ} × ⊥
  In a (x ∷ xs) = (x ≡ a) ⊎ In a xs

  pub In-append_left : (a : A) (xs ys : List A) → In a xs → In a (xs ++ ys)
  In-append_left a [] ys h = absurd h.1
  In-append_left a (x ∷ xs) ys (inl e) = inl e
  In-append_left a (x ∷ xs) ys (inr h) = inr (In-append_left a xs ys h)

  pub In-append_right : (a : A) (xs ys : List A) → In a ys → In a (xs ++ ys)
  In-append_right a [] ys h = h
  In-append_right a (x ∷ xs) ys h = inr (In-append_right a xs ys h)

  -- In a list of at most one element all are the same.
  pub In-single : (a b : A) (xs : List A) → length xs < 2 → In a xs → In b xs → a ≡ b
  In-single a b [] s h k = absurd h.1
  In-single a b (x ∷ []) s (inl e) (inl q) = sym e ∙ q
  In-single a b (x ∷ []) s (inl e) (inr k) = absurd k.1
  In-single a b (x ∷ []) s (inr h) k = absurd h.1
  In-single a b (x ∷ y ∷ xs) s h k = absurd (omega arith)

  module _ (less : A → A → Bool) where
    pub In-insert_by_self : (a : A) (xs : List A) → In a (insert_by less a xs)
    unfolding insert_by
    In-insert_by_self a [] = inl refl
    In-insert_by_self a (x ∷ xs) = elim (Bool-cases (less a x)) [
      | inl e ↦ rw e (inl refl)
      | inr e ↦ rw e (inr (In-insert_by_self a xs))
    ]

    pub In-insert_by : (a b : A) (xs : List A) → In a xs → In a (insert_by less b xs)
    unfolding insert_by
    In-insert_by a b [] h = absurd h.1
    In-insert_by a b (x ∷ xs) h = elim (Bool-cases (less b x)) [
      | inl e ↦ rw e (inr h)
      | inr e ↦ rw e (elim h [ inl q ↦ inl q | inr r ↦ inr (In-insert_by a b xs r) ])
    ]

    pub In-sort_by : (a : A) (xs : List A) → In a xs → In a (sort_by less xs)
    unfolding sort_by
    In-sort_by a [] h = h
    In-sort_by a (x ∷ xs) (inl e) = rw (sym e) (In-insert_by_self x (sort_by less xs))
    In-sort_by a (x ∷ xs) (inr h) = In-insert_by a x (sort_by less xs) (In-sort_by a xs h)

pub In-map {ℓ κ} :
    {A : Type ℓ} {B : Type κ} (f : A → B) (a : A) (xs : List A) → In a xs → In (f a) (map f xs)
In-map f a [] h = absurd h.1
In-map f a (x ∷ xs) (inl e) = inl (ap f e)
In-map f a (x ∷ xs) (inr h) = inr (In-map f a xs h)

length-insert_by {ℓ} :
    {A : Type ℓ} (less : A → A → Bool) (a : A) (xs : List A)
    → length (insert_by less a xs) ≡ length xs + 1
unfolding insert_by
length-insert_by less a [] = omega arith
length-insert_by less a (x ∷ xs) = elim (Bool-cases (less a x)) [
  | inl e ↦ rw e (omega arith)
  | inr e ↦ rw e (omega (arith, length-insert_by less a xs))
]

pub length-sort_by {ℓ} :
    {A : Type ℓ} (less : A → A → Bool) (xs : List A) → length (sort_by less xs) ≡ length xs
unfolding sort_by
length-sort_by less [] = refl
length-sort_by less (x ∷ xs) =
    omega (arith, length-insert_by less x (sort_by less xs), length-sort_by less xs)

pub length-map {ℓ κ} :
    {A : Type ℓ} {B : Type κ} (f : A → B) (xs : List A) → length (map f xs) ≡ length xs
length-map f [] = refl
length-map f (x ∷ xs) = ap suc (length-map f xs)

pub List-cases {ℓ} :
    {A : Type ℓ} (xs : List A) → (xs ≡ []) ⊎ ((x : A) × (ys : List A) × (xs ≡ x ∷ ys))
List-cases [] = inl refl
List-cases (x ∷ xs) = inr (x, xs, refl)
