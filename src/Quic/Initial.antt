-- ===== src/Quic/Initial.antt =====
-- internal/quic/initial.go: `extractInitialCrypto` takes a QUIC v1 Initial datagram apart. The
-- primitives of golang.org/x/crypto/hkdf and of the standard library's AES are a parameter. Every
-- error return is `stop`. A mask of low bits is a remainder: `x & 0x0f` is `x % 16`.
pub mod Safe
use Prim.Native.Nat.{bit_xor}
use mirage_chaff.Base.{
  ℕ, zero, suc, ◌+◌, ◌-◌, ◌*◌, ◌/◌, ◌%◌, ◌^◌, ◌≤◌, ◌≡◌, Bool, false, not, ◌&&◌, List, [], ◌∷◌, ◌++◌,
  Option, none, some, length, take, drop, leb, ltb, ◌==◌, if◌then◌else◌,
}
use mirage_chaff.Base.Text.{Text, codes}
use mirage_chaff.Base.Scan.{
  Scan, ok, stop, panic, stuck, ◌>>=◌, ◌>>◌, require, index, slice, slice_from, slice_to, checked,
}
use mirage_chaff.Quic.Varint.{read_varint}
use mirage_chaff.Quic.Frames.{Chunk, crypto_frames}

-- hkdf.Extract of a secret and a salt, hkdf.Expand to so many bytes, one AES block under a key, and
-- AES-GCM's Open of a ciphertext under a key, a nonce and additional data.
pub record Crypto : Type 0 where
  pub hkdf_extract : List ℕ → List ℕ → List ℕ
  pub hkdf_expand : List ℕ → List ℕ → ℕ → Option (List ℕ)
  pub aes_block : List ℕ → List ℕ → Option (List ℕ)
  pub gcm_open : List ℕ → List ℕ → List ℕ → List ℕ → Option (List ℕ)

-- Their documented lengths: Expand fills the slice it is given, an AES block has 16 bytes.
pub record IsCrypto (c : Crypto) : Type 0 where
  pub expand_length :
      (secret info : List ℕ) (n : ℕ) (out : List ℕ)
      → c.hkdf_expand secret info n ≡ some out
      → length out ≡ n
  pub block_length : (key block out : List ℕ) → c.aes_block key block ≡ some out → length out ≡ 16

abbrev pub initial_salt : List ℕ
initial_salt =
    0x38 ∷ 0x76 ∷ 0x2c ∷ 0xf7 ∷ 0xf5 ∷ 0x59 ∷ 0x34 ∷ 0xb3 ∷ 0x4d ∷ 0x17 ∷ 0x9a ∷ 0xe6 ∷ 0xa4 ∷ 0xc8
    ∷ 0x0c ∷ 0xad ∷ 0xcc ∷ 0xbb ∷ 0x7f ∷ 0x0a ∷ []

-- The byte `byte(n>>8)`, the byte `byte(n)`, the label behind its length, a context of no bytes.
unfoldable pub label_info : Text → ℕ → List ℕ
label_info label n =
    let full = codes "tls13 " ++ label in
    n / 256 % 256 ∷ n % 256 ∷ length full % 256 ∷ (full ++ (0 ∷ []))

pub record Keys : Type 0 where
  pub key : List ℕ
  pub iv : List ℕ
  pub hp : List ℕ

pub record Header : Type 0 where
  pub dcid : List ℕ
  pub payload_len : ℕ
  pub pn_offset : ℕ

-- `binary.BigEndian.Uint32(data[1:5]) != 0x00000001`
unfoldable pub is_v1 : List ℕ → Bool
is_v1 (a ∷ b ∷ c ∷ d ∷ rest) = ((a * 256 + b) * 256 + c) * 256 + d == 0x00000001
is_v1 _ = false

-- From the first byte up to the packet number.
unfoldable pub parse_header : List ℕ → Scan Header
parse_header b = do
  require (leb 7 (length b))
  b0 ← index b 0
  require (not (b0 / 128 % 2 == 0))
  require (b0 / 16 % 4 == 0)
  version ← slice 1 5 b
  require (is_v1 version)
  dcid_len ← index b 5
  require (leb (6 + dcid_len) (length b))
  dcid ← slice 6 (6 + dcid_len) b
  require (ltb (6 + dcid_len) (length b))
  scid_len ← index b (6 + dcid_len)
  let token_at = 6 + dcid_len + 1 + scid_len
  require (ltb token_at (length b))
  token ← slice_from token_at b
  let token_len = read_varint token
  require (not (token_len.1 == 0))
  let len_at = token_at + (token_len.1 + token_len.0)
  require (ltb len_at (length b))
  rest ← slice_from len_at b
  let payload = read_varint rest
  require (not (payload.1 == 0))
  let pn_offset = len_at + payload.1
  require (leb (pn_offset + 4 + 16) (length b))
  ok (record { dcid = dcid; payload_len = payload.0; pn_offset = pn_offset })

-- `for i := 0; i < pnLen; i++`: the packet number's bytes from `i` on, unmasked.
unfoldable pub unmask : ℕ → ℕ → List ℕ → List ℕ → ℕ → Scan (List ℕ)
unmask zero i b mask pn_offset = ok []
unmask (suc n) i b mask pn_offset = do
  d ← index b (pn_offset + i)
  m ← index mask (1 + i)
  rest ← unmask n (i + 1) b mask pn_offset
  ok (bit_xor d m ∷ rest)

-- `pn = pn<<8 | uint64(b)`
unfoldable pub packet_number : ℕ → List ℕ → ℕ
packet_number pn [] = pn
packet_number pn (b ∷ bs) = packet_number ((pn * 256 + b) % 2 ^ 64) bs

-- `binary.BigEndian.PutUint64`, and xor of two lists in step.
abbrev pub uint64_bytes : ℕ → List ℕ
uint64_bytes n =
    n / 2 ^ 56 % 256
    ∷ n / 2 ^ 48 % 256
    ∷ n / 2 ^ 40 % 256
    ∷ n / 2 ^ 32 % 256
    ∷ n / 2 ^ 24 % 256
    ∷ n / 2 ^ 16 % 256
    ∷ n / 2 ^ 8 % 256
    ∷ n % 256
    ∷ []

abbrev pub xor_bytes : List ℕ → List ℕ → List ℕ
xor_bytes [] ys = []
xor_bytes (x ∷ xs) [] = x ∷ xs
xor_bytes (x ∷ xs) (y ∷ ys) = bit_xor x y ∷ xor_bytes xs ys

-- `nonce[len(nonce)-8+i] ^= pnFull[i]` for eight values of `i`, on a copy of the IV.
unfoldable pub packet_nonce : List ℕ → ℕ → Scan (List ℕ)
packet_nonce iv pn =
    if leb 8 (length iv)
    then ok (take (length iv - 8) iv ++ xor_bytes (drop (length iv - 8) iv) (uint64_bytes pn))
    else panic

-- `hdr[0] ^= mask[0] & 0x0f`, on a copy of the header.
unfoldable pub unmask_first : List ℕ → ℕ → Scan (ℕ × List ℕ)
unmask_first [] m = panic
unmask_first (b ∷ bs) m = ok (bit_xor b (m % 16), bit_xor b (m % 16) ∷ bs)

module _ (c : Crypto) where
  unfoldable pub hkdf_expand_label : List ℕ → Text → ℕ → Option (List ℕ)
  hkdf_expand_label secret label n = c.hkdf_expand secret (label_info label n) n

  unfoldable pub derive_client_initial_keys : List ℕ → Scan Keys
  derive_client_initial_keys dcid = do
    let initial_secret = c.hkdf_extract dcid initial_salt
    client_secret ← checked (hkdf_expand_label initial_secret (codes "client in") 32)
    key ← checked (hkdf_expand_label client_secret (codes "quic key") 16)
    iv ← checked (hkdf_expand_label client_secret (codes "quic iv") 12)
    hp ← checked (hkdf_expand_label client_secret (codes "quic hp") 16)
    ok (record { key = key; iv = iv; hp = hp })

  -- Header protection off, then the payload decrypted.
  unfoldable pub open_packet : List ℕ → Header → Keys → Scan (List ℕ)
  open_packet b h keys = do
    sample ← slice (h.pn_offset + 4) (h.pn_offset + 4 + 16) b
    mask ← checked (c.aes_block keys.hp sample)
    plain_hdr ← slice_to h.pn_offset b
    m0 ← index mask 0
    (first, hdr) ← unmask_first plain_hdr m0
    let pn_len = first % 4 + 1
    pn_bytes ← unmask pn_len 0 b mask h.pn_offset
    let ct_start = h.pn_offset + pn_len
    let ct_end = h.pn_offset + h.payload_len
    require (leb ct_end (length b) && leb ct_start ct_end)
    ciphertext ← slice ct_start ct_end b
    nonce ← packet_nonce keys.iv (packet_number 0 pn_bytes)
    checked (c.gcm_open keys.key nonce ciphertext (hdr ++ pn_bytes))

  unfoldable pub extract_initial_crypto : List ℕ → Scan (List Chunk)
  extract_initial_crypto b = do
    h ← parse_header b
    keys ← derive_client_initial_keys h.dcid
    plaintext ← open_packet b h keys
    crypto_frames plaintext
