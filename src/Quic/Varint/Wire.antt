-- ===== src/Quic/Varint/Wire.antt =====
-- The four widths of the format, and reading back what was written at any of them.
use mirage_chaff.Base.{
  ℕ, zero, suc, ◌+◌, ◌-◌, ◌*◌, ◌/◌, ◌%◌, ◌^◌, ◌≤◌, ◌<◌, ◌≡◌, ap, List, [], ◌∷◌, ◌++◌, length,
  length-take, take, ltb, arith, All, inl, inr, Bool-cases, le→ltb,
}
use native.Mathlib.Nat.{pow-suc, pow-le-pow_right, mul-le-mul, mul-le-mul_right}
use mirage_chaff.Quic.Varint.{shift_in, read_varint}

pub data Width : Type 0 where
  one two four eight : Width

abbrev pub size : Width → ℕ
size one = 1
size two = 2
size four = 4
size eight = 8

-- The values that fit: two bits of the first byte are the width.
abbrev pub limit : Width → ℕ
limit one = 2 ^ 6
limit two = 2 ^ 14
limit four = 2 ^ 30
limit eight = 2 ^ 62

abbrev pub byte_at : ℕ → ℕ → ℕ
byte_at v k = v / 2 ^ k % 256

-- Big-endian, the width in the top bits.
unfoldable pub varint_wire : Width → ℕ → List ℕ
varint_wire one v = v ∷ []
varint_wire two v = (64 + v / 2 ^ 8) ∷ byte_at v 0 ∷ []
varint_wire four v = (128 + v / 2 ^ 24) ∷ byte_at v 16 ∷ byte_at v 8 ∷ byte_at v 0 ∷ []
varint_wire eight v =
    (192 + v / 2 ^ 56)
    ∷ byte_at v 48
    ∷ byte_at v 40
    ∷ byte_at v 32
    ∷ byte_at v 24
    ∷ byte_at v 16
    ∷ byte_at v 8
    ∷ byte_at v 0
    ∷ []

read_varint-width :
    (b : ℕ) (bs : List ℕ) (p : ℕ)
    → b / 64 ≡ p
    → 2 ^ p ≤ length (b ∷ bs)
    → read_varint (b ∷ bs) ≡ (shift_in (b % 64) (take (2 ^ p - 1) bs), 2 ^ p)
unfolding read_varint
read_varint-width b bs p e h = rw (e, le→ltb (length (b ∷ bs)) (2 ^ p) h)

-- One byte more of `v`, with no wrap below 2 ^ 62.
shift_step : (q v : ℕ) → v < 2 ^ 62 → q ≡ v / 2 ^ 8 → (q * 256 + v % 256) % 2 ^ 64 ≡ v
shift_step q v h e = omega arith

eight_bytes :
    (v : ℕ)
    → v < 2 ^ 62
    → shift_in (v / 2 ^ 56) (
        byte_at v 48
        ∷ byte_at v 40
        ∷ byte_at v 32
        ∷ byte_at v 24
        ∷ byte_at v 16
        ∷ byte_at v 8
        ∷ byte_at v 0
        ∷ [])
      ≡ v
unfolding shift_in
eight_bytes v h =
    rw
      (
        shift_step (v / 2 ^ 56) (v / 2 ^ 48) (omega arith) (omega arith),
        shift_step (v / 2 ^ 48) (v / 2 ^ 40) (omega arith) (omega arith),
        shift_step (v / 2 ^ 40) (v / 2 ^ 32) (omega arith) (omega arith),
        shift_step (v / 2 ^ 32) (v / 2 ^ 24) (omega arith) (omega arith),
        shift_step (v / 2 ^ 24) (v / 2 ^ 16) (omega arith) (omega arith),
        shift_step (v / 2 ^ 16) (v / 2 ^ 8) (omega arith) (omega arith),
      )
      (omega arith)

-- Reading gives back every value that was written at any width that holds it, with the number of
-- bytes written, whatever follows.
pub read_varint-wire :
    (w : Width) (v : ℕ) (rest : List ℕ)
    → v < limit w
    → read_varint (varint_wire w v ++ rest) ≡ (v, size w)
unfolding varint_wire shift_in
read_varint-wire one v rest h =
    rw (read_varint-width v rest 0 (omega arith) (omega arith)) (ap (λ x. (x, 1)) (omega arith))
read_varint-wire two v rest h =
    rw (read_varint-width (64 + v / 2 ^ 8) (byte_at v 0 ∷ rest) 1 (omega arith) (omega arith))
      (ap (λ x. (x, 2)) (omega arith))
read_varint-wire four v rest h =
    rw
      (read_varint-width (128 + v / 2 ^ 24) (byte_at v 16 ∷ byte_at v 8 ∷ byte_at v 0 ∷ rest) 2
        (omega arith) (omega arith))
      (ap (λ x. (x, 4)) (omega arith))
read_varint-wire eight v rest h =
    let first : (192 + v / 2 ^ 56) % 64 ≡ v / 2 ^ 56 = omega arith in
    rw (
      read_varint-width (192 + v / 2 ^ 56)
          (byte_at v 48
            ∷ byte_at v 40
            ∷ byte_at v 32
            ∷ byte_at v 24
            ∷ byte_at v 16
            ∷ byte_at v 8
            ∷ byte_at v 0
            ∷ rest)
          3 (omega arith) (omega arith),
      first,
      eight_bytes v h,
    )

shift_in-lt :
    (value : ℕ) (bs : List ℕ)
    → All (λ b. b < 256) bs
    → shift_in value bs < (value + 1) * 256 ^ length bs
unfolding shift_in
shift_in-lt value [] a = omega arith
shift_in-lt value (b ∷ bs) a =
    let next = (value * 256 + b) % 2 ^ 64 in
    let step : next + 1 ≤ (value + 1) * 256 = omega (arith, a.0) in
    let wide : (next + 1) * 256 ^ length bs ≤ (value + 1) * 256 * 256 ^ length bs =
      mul-le-mul_right (256 ^ length bs) step in
    rw (pow-suc 256 (length bs)) (omega (arith, shift_in-lt next bs a.1, wide))

-- A varint that is read lies inside the input, and a read that fails takes nothing.
pub read_varint_bounds : (b : List ℕ) → (read_varint b).1 ≤ length b
unfolding read_varint
read_varint_bounds [] = omega arith
read_varint_bounds (b ∷ bs) = elim (Bool-cases (ltb (length (b ∷ bs)) (2 ^ (b / 64)))) [
  | inl e ↦ rw e (omega arith)
  | inr e ↦ rw e (ground arith)
]

take-All : (n : ℕ) (bs : List ℕ) → All (λ b. b < 256) bs → All (λ b. b < 256) (take n bs)
take-All zero bs a = tt
take-All (suc n) [] a = tt
take-All (suc n) (b ∷ bs) a = (a.0, take-All n bs a.1)

pow_mono : (b m n : ℕ) → 0 < b → m ≤ n → b ^ m ≤ b ^ n
pow_mono b m n h k = pow-le-pow_right h k

-- On bytes, the value is below 2 ^ 62: `int` of it is never negative.
pub read_varint-lt : (b : List ℕ) → All (λ x. x < 256) b → (read_varint b).0 < 2 ^ 62
unfolding read_varint
read_varint-lt [] a = omega arith
read_varint-lt (b ∷ bs) a = elim (Bool-cases (ltb (length (b ∷ bs)) (2 ^ (b / 64)))) [
  | inl e ↦ rw e (omega arith)
  | inr e ↦
      let tail = take (2 ^ (b / 64) - 1) bs in
      let top : 2 ^ (b / 64) ≤ 2 ^ 3 = pow_mono 2 (b / 64) 3 (omega arith) (omega (arith, a.0)) in
      let short : length tail ≤ 7 = omega (arith, length-take (2 ^ (b / 64) - 1) bs) in
      let most : 256 ^ length tail ≤ 256 ^ 7 = pow_mono 256 (length tail) 7 (omega arith) short in
      let bound : (b % 64 + 1) * 256 ^ length tail ≤ 64 * 256 ^ 7 =
        (let low : b % 64 + 1 ≤ 64 = omega arith in mul-le-mul low most) in
      rw e (omega (arith, shift_in-lt (b % 64) tail (take-All _ bs a.1), bound))
]
