-- ===== src/Observability/Recorder/Rotate.antt =====
-- internal/observability/record.go: a ring of places against the list of the last elements.
use mirage_chaff.Base.{
  ◌≡◌, refl, sym, ap, ℕ, ◌+◌, ◌-◌, ◌%◌, ◌<◌, ◌≤◌, Bool, true, false, ◌||◌, List, [], ◌∷◌, ◌++◌,
  length, take, drop, ltb, ◌==◌, zero, suc, inl, inr, Bool-cases, if◌then◌else◌, arith, ◌∙◌,
  length-append, length-drop, take-length_append, drop-length_append, append_assoc, append-nil,
}
use native.Mathlib.Nat.{mod-eq_of_lt, mod-lt, mod_self}
use mirage_chaff.Observability.Recorder.{set_at, last_of}

module _ {ℓ} {A : Type ℓ} where
  -- A list around one of its places.
  pub split-lt :
      (xs : List A) (i : ℕ)
      → i < length xs
      → (pre : List A) × (x : A) × (post : List A) × (xs ≡ pre ++ x ∷ post) × (length pre ≡ i)
  split-lt [] i h = absurd (omega arith)
  split-lt (x ∷ xs) zero h = ([], x, xs, refl, refl)
  split-lt (x ∷ xs) (suc i) h =
      let (pre, y, post, eq, size) = split-lt xs i (omega arith) in
      (x ∷ pre, y, post, ap (◌∷◌ x) eq, ap suc size)

  pub set_at-length :
      (pre : List A) (a x : A) (post : List A)
      → set_at (length pre) a (pre ++ x ∷ post) ≡ pre ++ a ∷ post
  unfolding set_at
  set_at-length [] a x post = refl
  set_at-length (y ∷ pre) a x post = ap (◌∷◌ y) (set_at-length pre a x post)

  pub take-suc-length :
      (pre : List A) (a : A) (post : List A)
      → take (suc (length pre)) (pre ++ a ∷ post) ≡ pre ++ a ∷ []
  take-suc-length [] a post = refl
  take-suc-length (y ∷ pre) a post = ap (◌∷◌ y) (take-suc-length pre a post)

  pub drop-suc-length :
      (pre : List A) (a : A) (post : List A) → drop (suc (length pre)) (pre ++ a ∷ post) ≡ post
  drop-suc-length [] a post = refl
  drop-suc-length (y ∷ pre) a post = drop-suc-length pre a post

  drop-append : (n : ℕ) (xs ys : List A) → n ≤ length xs → drop n (xs ++ ys) ≡ drop n xs ++ ys
  drop-append zero xs ys h = refl
  drop-append (suc n) [] ys h = absurd (omega arith)
  drop-append (suc n) (x ∷ xs) ys h = drop-append n xs ys (omega arith)

  drop-nil : (n : ℕ) → drop {A = A} n [] ≡ []
  drop-nil zero = refl
  drop-nil (suc n) = refl

  pub drop-drop : (m n k : ℕ) (xs : List A) → k ≡ n + m → drop m (drop n xs) ≡ drop k xs
  drop-drop m zero k xs h = ap (λ i. drop i xs) (omega arith)
  drop-drop m (suc n) k [] h = drop-nil m ∙ sym (drop-nil k)
  drop-drop m (suc n) zero (x ∷ xs) h = absurd (omega arith)
  drop-drop m (suc n) (suc k) (x ∷ xs) h = drop-drop m n k xs (omega arith)

  -- The last elements of a list, by their number.
  pub last_of-drop : (n : ℕ) (xs : List A) → last_of n xs ≡ drop (length xs - n) xs
  unfolding last_of
  last_of-drop n xs = elim (Bool-cases (ltb n (length xs))) [
    | inl e ↦ rw e
    | inr e ↦ let few : length xs - n ≡ 0 = ground (arith, e) in rw (e, few)
  ]

  pub last_of-all : (n : ℕ) (xs : List A) → length xs ≤ n → last_of n xs ≡ xs
  last_of-all n xs h = let few : length xs - n ≡ 0 = omega arith in rw (last_of-drop n xs, few)

  -- What is left when one more element comes.
  pub last_of-snoc :
      (n : ℕ) (xs : List A) (a : A)
      → 0 < n
      → last_of n (xs ++ a ∷ []) ≡ last_of n (last_of n xs ++ a ∷ [])
  last_of-snoc n xs a h = elim (Bool-cases (ltb (length xs) n)) [
    | inl e ↦ rw (last_of-all n xs (ground (arith, e)))
    | inr e ↦
        let kept = drop (length xs - n) xs in
        let long : n ≤ length xs = ground (arith, e) in
        let size : length kept ≡ n = omega (arith, length-drop (length xs - n) xs) in
        let over : length (kept ++ a ∷ []) - n ≡ 1 = omega (arith, length-append kept (a ∷ [])) in
        let all : length (xs ++ a ∷ []) - n ≡ length xs - n + 1 =
          omega (arith, length-append xs (a ∷ [])) in
        rw (
          last_of-drop n xs,
          last_of-drop n (xs ++ a ∷ []),
          last_of-drop n (kept ++ a ∷ []),
          over,
          all,
          sym (drop-append (length xs - n) xs (a ∷ []) (omega arith)),
          drop-drop 1 (length xs - n) (length xs - n + 1) (xs ++ a ∷ []) refl,
        )
  ]

  -- The elements of a ring, oldest first.
  abbrev pub rotate : Bool → ℕ → List A → List A
  rotate full next ring = if full then drop next ring ++ take next ring else take next ring

  -- Writing one place on is adding to the list of the last elements.
  push-rotate :
      (full : Bool) (pre : List A) (x : A) (post : List A) (a : A)
      → (let n = length (pre ++ x ∷ post) in
          let next = (length pre + 1) % n in
          rotate (full || (next == 0)) next (pre ++ a ∷ post)
          ≡ last_of n (rotate full (length pre) (pre ++ x ∷ post) ++ a ∷ []))
  push-rotate true pre x [] a =
      let size : length (pre ++ x ∷ []) ≡ length pre + 1 =
        omega (arith, length-append pre (x ∷ [])) in
      let longer : length ((x ∷ pre) ++ a ∷ []) - (length pre + 1) ≡ 1 =
        omega (arith, length-append pre (a ∷ [])) in
      rw (
        size,
        mod_self (length pre + 1),
        drop-length_append pre (x ∷ []),
        take-length_append pre (x ∷ []),
        last_of-drop (length pre + 1) ((x ∷ pre) ++ a ∷ []),
        longer,
        append-nil (pre ++ a ∷ []),
      )
  push-rotate true pre x (y ∷ post) a =
      let size : length (pre ++ x ∷ y ∷ post) ≡ length pre + 2 + length post =
        omega (arith, length-append pre (x ∷ y ∷ post)) in
      let small : (length pre + 1) % length (pre ++ x ∷ y ∷ post) ≡ suc (length pre) =
        mod-eq_of_lt (omega arith) ∙ omega arith in
      let inside : (suc (length pre) == 0) ≡ false = ground arith in
      let longer : length ((x ∷ y ∷ post ++ pre) ++ a ∷ []) - length (pre ++ x ∷ y ∷ post) ≡ 1 =
        omega
          (arith, length-append (x ∷ y ∷ post ++ pre) (a ∷ []), length-append (x ∷ y ∷ post) pre) in
      rw
        (
          small,
          drop-suc-length pre a (y ∷ post),
          take-suc-length pre a (y ∷ post),
          drop-length_append pre (x ∷ y ∷ post),
          take-length_append pre (x ∷ y ∷ post),
          last_of-drop (length (pre ++ x ∷ y ∷ post)) ((x ∷ y ∷ post ++ pre) ++ a ∷ []),
          longer,
        )
        (sym (append_assoc (y ∷ post) pre (a ∷ [])))
  push-rotate false pre x [] a =
      let size : length (pre ++ x ∷ []) ≡ length pre + 1 =
        omega (arith, length-append pre (x ∷ [])) in
      let short =
        last_of-all (length pre + 1) (pre ++ a ∷ []) (omega (arith, length-append pre (a ∷ []))) in
      rw (
        size,
        mod_self (length pre + 1),
        take-length_append pre (x ∷ []),
        short,
        append-nil (pre ++ a ∷ []),
      )
  push-rotate false pre x (y ∷ post) a =
      let size : length (pre ++ x ∷ y ∷ post) ≡ length pre + 2 + length post =
        omega (arith, length-append pre (x ∷ y ∷ post)) in
      let small : (length pre + 1) % length (pre ++ x ∷ y ∷ post) ≡ suc (length pre) =
        mod-eq_of_lt (omega arith) ∙ omega arith in
      let inside : (suc (length pre) == 0) ≡ false = ground arith in
      let short =
        last_of-all (length (pre ++ x ∷ y ∷ post)) (pre ++ a ∷ [])
          (omega (arith, length-append pre (a ∷ []))) in
      rw (
        small,
        inside,
        take-suc-length pre a (y ∷ post),
        take-length_append pre (x ∷ y ∷ post),
        short,
      )

  -- A ring that holds the last n elements of a list.
  abbrev pub IsLast : ℕ → List A → List A → ℕ → Bool → Type ℓ
  IsLast n xs ring next full =
      (length ring ≡ n) × (next < n) × (rotate full next ring ≡ last_of n xs)

  set_at-around :
      (n : ℕ) (full : Bool) (next : ℕ) (ring xs : List A) (a : A) (pre : List A) (x : A)
      (post : List A)
      → ring ≡ pre ++ x ∷ post
      → length pre ≡ next
      → IsLast n xs ring next full
      → (let place = (next + 1) % length ring in
          IsLast n (xs ++ a ∷ []) (set_at next a ring) place (full || (place == 0)))
  set_at-around n full next ring xs a pre x post eq at (size, inside, held) =
      let same : length (pre ++ x ∷ post) ≡ n = ap length (sym eq) ∙ size in
      let written : set_at next a ring ≡ pre ++ a ∷ post =
        rw (eq, sym at) (set_at-length pre a x post) in
      let long : length (pre ++ a ∷ post) ≡ n =
        omega (arith, same, length-append pre (x ∷ post), length-append pre (a ∷ post)) in
      let before : rotate full (length pre) (pre ++ x ∷ post) ≡ last_of n xs =
        rw (sym eq, at) held in
      let pushed = push-rotate full pre x post a in
      (
        rw written long,
        rw size (mod-lt (next + 1) (omega arith)),
        rw (written, last_of-snoc n xs a (omega arith), sym before, eq, sym at, same)
            (rw same at pushed),
      )

  -- Writing at the next place of the ring.
  pub set_at-IsLast :
      (n : ℕ) (full : Bool) (next : ℕ) (ring xs : List A) (a : A)
      → IsLast n xs ring next full
      → (let place = (next + 1) % length ring in
          IsLast n (xs ++ a ∷ []) (set_at next a ring) place (full || (place == 0)))
  set_at-IsLast n full next ring xs a (size, inside, held) =
      let (pre, x, post, eq, at) = split-lt ring next (omega arith) in
      set_at-around n full next ring xs a pre x post eq at (size, inside, held)
