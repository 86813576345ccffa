-- ===== src/Quic/Varint.antt =====
-- internal/quic/varint.go: variable-length integers (RFC 9000, section 16).
pub mod Wire
use mirage_chaff.Base.{
  ℕ, ◌+◌, ◌-◌, ◌*◌, ◌/◌, ◌%◌, ◌^◌, List, [], ◌∷◌, length, take, ltb, if◌then◌else◌,
}

-- `value = value<<8 | uint64(b[i])` for each byte that is left, on a uint64.
unfoldable pub shift_in : ℕ → List ℕ → ℕ
shift_in value [] = value
shift_in value (b ∷ bs) = shift_in ((value * 256 + b) % 2 ^ 64) bs

-- The value and the number of bytes it took, or 0 bytes when the input is too short. `b[0] >> 6` is
-- `b / 64`, and `b[0] & 0x3f` is `b % 64`.
unfoldable pub read_varint : List ℕ → ℕ × ℕ
unfolding shift_in
read_varint [] = (0, 0)
read_varint (b ∷ bs) =
    let size = 2 ^ (b / 64) in
    if ltb (length (b ∷ bs)) size then (0, 0) else (shift_in (b % 64) (take (size - 1) bs), size)
