-- ===== src/Mimic/Generator.antt =====
-- internal/mimic/generator.go: deterministic decoy bytes. SHA-256 is an argument, `sum`, from bytes to
-- 32 bytes. A length is an int64; a negative one is refused, and the lengths here are the others.
pub mod Length
mod Examples
use mirage_chaff.Base.{
  ℕ, zero, suc, ◌+◌, ◌-◌, ◌*◌, ◌/◌, ◌%◌, ◌^◌, Bool, true, false, ◌||◌, List, [], ◌∷◌, ◌++◌, Option,
  none, some, length, take, drop, leb, ltb, if◌then◌else◌, replicate,
}
use mirage_chaff.Base.Text.{Text, codes, text_eq, to_lower}
use mirage_chaff.Base.Scan.{Scan, stop, slice}
use mirage_chaff.Base.Strings.{contains}

pub data Media : Type 0 where
  image js binary video : Media

pub record Shape : Type 0 where
  pub content_type : Text
  pub size : ℕ
  pub media : Media

abbrev pub gif1x1 : List ℕ
gif1x1 =
    0x47 ∷ 0x49 ∷ 0x46 ∷ 0x38 ∷ 0x39 ∷ 0x61 ∷ 0x01 ∷ 0x00 ∷ 0x01 ∷ 0x00 ∷ 0x80 ∷ 0x00 ∷ 0x00 ∷ 0xff
    ∷ 0xff ∷ 0xff ∷ 0x00 ∷ 0x00 ∷ 0x00 ∷ 0x21 ∷ 0xf9 ∷ 0x04 ∷ 0x01 ∷ 0x00 ∷ 0x00 ∷ 0x00 ∷ 0x00
    ∷ 0x2c ∷ 0x00 ∷ 0x00 ∷ 0x00 ∷ 0x00 ∷ 0x01 ∷ 0x00 ∷ 0x01 ∷ 0x00 ∷ 0x00 ∷ 0x02 ∷ 0x01 ∷ 0x44
    ∷ 0x00 ∷ 0x3b ∷ []

abbrev pub png1x1 : List ℕ
png1x1 =
    0x89 ∷ 0x50 ∷ 0x4e ∷ 0x47 ∷ 0x0d ∷ 0x0a ∷ 0x1a ∷ 0x0a ∷ 0x00 ∷ 0x00 ∷ 0x00 ∷ 0x0d ∷ 0x49 ∷ 0x48
    ∷ 0x44 ∷ 0x52 ∷ 0x00 ∷ 0x00 ∷ 0x00 ∷ 0x01 ∷ 0x00 ∷ 0x00 ∷ 0x00 ∷ 0x01 ∷ 0x08 ∷ 0x06 ∷ 0x00
    ∷ 0x00 ∷ 0x00 ∷ 0x1f ∷ 0x15 ∷ 0xc4 ∷ 0x89 ∷ 0x00 ∷ 0x00 ∷ 0x00 ∷ 0x0d ∷ 0x49 ∷ 0x44 ∷ 0x41
    ∷ 0x54 ∷ 0x78 ∷ 0x9c ∷ 0x62 ∷ 0x00 ∷ 0x01 ∷ 0x00 ∷ 0x00 ∷ 0x05 ∷ 0x00 ∷ 0x01 ∷ 0x0d ∷ 0x0a
    ∷ 0x2d ∷ 0xb4 ∷ 0x00 ∷ 0x00 ∷ 0x00 ∷ 0x00 ∷ 0x49 ∷ 0x45 ∷ 0x4e ∷ 0x44 ∷ 0xae ∷ 0x42 ∷ 0x60
    ∷ 0x82 ∷ []

-- `binary.BigEndian.PutUint64`
abbrev pub counter_bytes : ℕ → List ℕ
counter_bytes n =
    n / 2 ^ 56 % 256
    ∷ n / 2 ^ 48 % 256
    ∷ n / 2 ^ 40 % 256
    ∷ n / 2 ^ 32 % 256
    ∷ n / 2 ^ 24 % 256
    ∷ n / 2 ^ 16 % 256
    ∷ n / 2 ^ 8 % 256
    ∷ n % 256
    ∷ []

-- One character of the base64url alphabet.
unfoldable pub base64_char : ℕ → ℕ
base64_char n =
    if ltb n 26
    then b'A' + n
    else if ltb n 52
    then b'a' + (n - 26)
    else if ltb n 62
    then b'0' + (n - 52)
    else if leb n 62
    then b'-'
    else b'_'

-- `base64.RawURLEncoding.EncodeToString`: no padding.
unfoldable pub base64 : List ℕ → List ℕ
base64 [] = []
base64 (a ∷ []) = base64_char (a / 4) ∷ base64_char (a % 4 * 16) ∷ []
base64 (a ∷ b ∷ []) =
    base64_char (a / 4) ∷ base64_char (a % 4 * 16 + b / 16) ∷ base64_char (b % 16 * 4) ∷ []
base64 (a ∷ b ∷ c ∷ rest) =
    base64_char (a / 4)
    ∷ base64_char (a % 4 * 16 + b / 16)
    ∷ base64_char (b % 16 * 4 + c / 64)
    ∷ base64_char (c % 64)
    ∷ base64 rest

abbrev pub js_prefix : Text
js_prefix = codes "/* "

abbrev pub js_suffix : Text
js_suffix = codes "*/\nvar __mc=0;\n"

abbrev pub js_empty : Text
js_empty = codes "var __mc=0;\n"

module _ (sum : List ℕ → List ℕ) where
  -- The loop of `keystream`: a block for each counter until `n` bytes are there. Each block has 32
  -- bytes, so `n` rounds are enough.
  unfoldable pub key_blocks : ℕ → List ℕ → ℕ → ℕ → List ℕ → List ℕ
  key_blocks zero base n counter out = out
  key_blocks (suc fuel) base n counter out =
      let more =
        key_blocks fuel base n ((counter + 1) % 2 ^ 64)
          (out ++ sum (base ++ counter_bytes counter)) in
      if ltb (length out) n then more else out

  unfoldable pub keystream : Text → ℕ → List ℕ
  keystream seed n = take n (key_blocks n (sum seed) n 0 [])

  unfoldable pub pad_text : Text → ℕ → List ℕ
  pad_text seed n =
      let enc = base64 (keystream seed ((n + 3) / 4 * 3)) in
      take n (if ltb (length enc) n then enc ++ replicate (n - length enc) b'A' else enc)

  unfoldable pub gen_js : Text → ℕ → List ℕ
  gen_js seed size =
      let overhead = length js_prefix + length js_suffix in
      if leb size overhead
      then js_empty
      else js_prefix ++ (pad_text seed (size - overhead) ++ js_suffix)

  unfoldable pub base_image : Shape → List ℕ
  base_image shape = if contains (to_lower shape.content_type) (codes "png") then png1x1 else gif1x1

  unfoldable pub gen_image : Text → Shape → List ℕ
  gen_image seed shape =
      let base = base_image shape in
      if leb shape.size (length base)
      then base
      else base ++ keystream seed (shape.size - length base)

  unfoldable pub generate : Text → Shape → List ℕ
  generate seed shape = elim shape.media [
    | js ↦ gen_js seed shape.size
    | image ↦ gen_image seed shape
    | binary ↦ keystream seed shape.size
    | video ↦ keystream seed shape.size
  ]

  -- Bytes `start` to `end`, both included; `stop` is the error, and a slice that ends before it
  -- starts panics.
  unfoldable pub generate_range : Text → Shape → ℕ → ℕ → Scan (List ℕ)
  generate_range seed shape start end =
      let full = generate seed shape in
      let last = (if leb (length full) end then length full - 1 else end) in
      if leb (length full) start then stop else slice start (last + 1) full
