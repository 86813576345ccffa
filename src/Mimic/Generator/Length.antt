-- ===== src/Mimic/Generator/Length.antt =====
-- How long decoys are, and what a script decoy's padding may hold.
use mirage_chaff.Base.{
  ℕ, zero, suc, ◌+◌, ◌-◌, ◌*◌, ◌/◌, ◌%◌, ◌^◌, ◌≤◌, ◌≡◌, ◌≢◌, refl, false, List, [], ◌∷◌, ◌++◌,
  length, take, leb, ltb, if◌then◌else◌, replicate, All, All-append, Bool-cases, inl, inr, arith,
  tests, length-append, length-take, max, ◌⊎◌,
}
use mirage_chaff.Base.Text.{Text}
use mirage_chaff.Mimic.Generator.{
  Media, image, js, binary, video, Shape, base64_char, base64, js_prefix, js_suffix, js_empty,
  key_blocks, keystream, pad_text, gen_js, base_image, gen_image, generate, counter_bytes,
}

length-base64 : (q : ℕ) (raw : List ℕ) → length raw ≡ q * 3 → length (base64 raw) ≡ q * 4
unfolding base64
length-base64 zero [] h = refl
length-base64 (suc q) [] h = absurd (omega (arith, h))
length-base64 zero (a ∷ raw) h = absurd (omega (arith, h))
length-base64 (suc q) (a ∷ []) h = absurd (omega (arith, h))
length-base64 (suc q) (a ∷ b ∷ []) h = absurd (omega (arith, h))
length-base64 (suc q) (a ∷ b ∷ c ∷ raw) h = omega (arith, length-base64 q raw (omega (arith, h)))

-- A character that can end or start no comment.
abbrev pub IsPlain : ℕ → Type 0
IsPlain c = (c ≢ b'*') × (c ≢ b'/')

base64_char-IsPlain : (n : ℕ) → IsPlain (base64_char n)
unfolding base64_char
base64_char-IsPlain n = ((λ h. ground (arith, h)), (λ h. ground (arith, h)))

base64-IsPlain : (raw : List ℕ) → All IsPlain (base64 raw)
unfolding base64
base64-IsPlain [] = tt
base64-IsPlain (a ∷ []) = (base64_char-IsPlain _, (base64_char-IsPlain _, tt))
base64-IsPlain (a ∷ b ∷ []) =
    (base64_char-IsPlain _, (base64_char-IsPlain _, (base64_char-IsPlain _, tt)))
base64-IsPlain (a ∷ b ∷ c ∷ raw) = (
  base64_char-IsPlain _,
  (base64_char-IsPlain _, (base64_char-IsPlain _, (base64_char-IsPlain _, base64-IsPlain raw))),
)

All-take : (P : ℕ → Type 0) (n : ℕ) (xs : List ℕ) → All P xs → All P (take n xs)
All-take P zero xs a = tt
All-take P (suc n) [] a = tt
All-take P (suc n) (x ∷ xs) a = (a.0, All-take P n xs a.1)

All-replicate : (P : ℕ → Type 0) (n x : ℕ) → P x → All P (replicate n x)
All-replicate P zero x p = tt
All-replicate P (suc n) x p = (p, All-replicate P n x p)

module _ (sum : List ℕ → List ℕ) (sum_32 : (b : List ℕ) → length (sum b) ≡ 32) where
  length-key_blocks :
      (fuel : ℕ) (base : List ℕ) (n counter : ℕ) (out : List ℕ)
      → n ≤ length out + fuel * 32
      → n ≤ length (key_blocks sum fuel base n counter out)
  unfolding key_blocks
  length-key_blocks zero base n counter out h = omega (arith, h)
  length-key_blocks (suc fuel) base n counter out h = elim (Bool-cases (ltb (length out) n)) [
    | inr k ↦ rw (key_blocks, k) (ground (arith, k))
    | inl y ↦
        rw (key_blocks, y)
          (length-key_blocks fuel base n ((counter + 1) % 2 ^ 64) _ (
            omega (
              arith,
              h,
              length-append out (sum (base ++ counter_bytes counter)),
              sum_32 (base ++ counter_bytes counter),
            )))
  ]

  length-keystream : (seed : Text) (n : ℕ) → length (keystream sum seed n) ≡ n
  unfolding keystream
  length-keystream seed n =
      let blocks = key_blocks sum n (sum seed) n 0 [] in
      omega (arith, length-take n blocks, length-key_blocks n (sum seed) n 0 [] (omega arith))

  length-pad_text : (seed : Text) (n : ℕ) → length (pad_text sum seed n) ≡ n
  unfolding pad_text
  length-pad_text seed n =
      let raw = keystream sum seed ((n + 3) / 4 * 3) in
      let long = length-base64 ((n + 3) / 4) raw (length-keystream seed ((n + 3) / 4 * 3)) in
      let enough : ltb (length (base64 raw)) n ≡ false = ground (arith, long) in
      rw enough (omega (arith, length-take n (base64 raw), long))

  pad_text-IsPlain : (seed : Text) (n : ℕ) → All IsPlain (pad_text sum seed n)
  unfolding pad_text
  pad_text-IsPlain seed n =
      let enc = base64 (keystream sum seed ((n + 3) / 4 * 3)) in
      All-take IsPlain n _ (elim (Bool-cases (ltb (length enc) n)) [
        | inl y ↦ rw y (
            All-append IsPlain enc _ (base64-IsPlain _) (
              All-replicate IsPlain (n - length enc) b'A'
                ((λ h. omega (arith, h)), (λ h. omega (arith, h)))))
        | inr k ↦ rw k (base64-IsPlain _)
      ])

  -- The length of a decoy: the one asked for, except that a script or an image that cannot be made
  -- so short is the shortest one that is valid.
  abbrev pub decoy_length : Shape → ℕ
  decoy_length shape = elim shape.media [
    | js ↦ if leb shape.size 18 then 12 else shape.size
    | image ↦ max shape.size (length (base_image sum shape))
    | binary ↦ shape.size
    | video ↦ shape.size
  ]

  length-gen_js : (seed : Text) (n : ℕ) → length (gen_js sum seed n) ≡ (if leb n 18 then 12 else n)
  unfolding gen_js
  length-gen_js seed n = elim (Bool-cases (leb n 18)) [
    | inl y ↦ rw (gen_js, y) refl
    | inr k ↦
        rw (gen_js, k)
          (ground (
            arith,
            k,
            length-append (pad_text sum seed (n - 18)) js_suffix,
            length-pad_text seed (n - 18),
          ))
  ]

  length-gen_image :
      (seed : Text) (shape : Shape)
      → length (gen_image sum seed shape) ≡ max shape.size (length (base_image sum shape))
  unfolding gen_image
  length-gen_image seed shape =
      let base = base_image sum shape in
      elim (Bool-cases (leb shape.size (length base))) [
        | inl y ↦ rw (gen_image, y) (omega tests)
        | inr k ↦
            rw (gen_image, k)
              (ground (
                arith,
                k,
                length-append base (keystream sum seed (shape.size - length base)),
                length-keystream seed (shape.size - length base),
              ))
      ]

  -- A decoy has the length asked for, except that a script of at most 18 bytes is the 12-byte empty
  -- one and an image is not shorter than the smallest image of its kind.
  pub length-generate :
      (seed : Text) (shape : Shape) → length (generate sum seed shape) ≡ decoy_length shape
  unfolding generate
  length-generate seed shape = go shape.media
    where
      go :
          (m : Media)
          → length (generate sum seed (record shape { media = m }))
            ≡ decoy_length (record shape { media = m })
      go image = length-gen_image seed (record shape { media = image })
      go js = length-gen_js seed shape.size
      go binary = length-keystream seed shape.size
      go video = length-keystream seed shape.size

  -- A script decoy is a comment and a harmless statement: either the statement alone, or the opening of
  -- a comment, padding without a star or a slash, so that nothing in it closes the comment, and the
  -- closing with the statement.
  pub gen_js-comment :
      (seed : Text) (n : ℕ)
      → (gen_js sum seed n ≡ js_empty)
        ⊎ ((pad : List ℕ) × (gen_js sum seed n ≡ js_prefix ++ (pad ++ js_suffix)) × All IsPlain pad)
  unfolding gen_js
  gen_js-comment seed n = elim (Bool-cases (leb n 18)) [
    | inl y ↦ rw (gen_js, y) (inl refl)
    | inr k ↦
        rw (gen_js, k) (inr (pad_text sum seed (n - 18), refl, pad_text-IsPlain seed (n - 18)))
  ]
