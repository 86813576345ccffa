-- ===== src/Quic/Frames.antt =====
-- internal/quic/initial.go: the CRYPTO frames of an Initial's plaintext.
pub mod Safe
pub mod Wire
use mirage_chaff.Base.{
  ℕ, zero, suc, Bool, true, false, not, ◌||◌, List, [], ◌∷◌, ◌++◌, length, leb, ◌==◌,
}
use mirage_chaff.Base.Scan.{
  Scan, ok, stop, panic, stuck, ◌>>=◌, ◌>>◌, require, slice_from, slice_to,
}
use mirage_chaff.Quic.Varint.{read_varint}

-- `cryptoChunk`: bytes of the TLS stream, and where they stand in it.
pub record Chunk : Type 0 where
  pub off : ℕ
  pub bytes : List ℕ

-- A CRYPTO frame behind its type byte, and what follows it; `stop` is `return chunks`.
unfoldable pub crypto_frame : List ℕ → Scan (Chunk × List ℕ)
crypto_frame b = do
  let offset = read_varint b
  require (not (offset.1 == 0))
  after ← slice_from offset.1 b
  let len = read_varint after
  require (not (len.1 == 0))
  content ← slice_from len.1 after
  require (leb len.0 (length content))
  bytes ← slice_to len.0 content
  rest ← slice_from len.0 content
  ok (record { off = offset.0; bytes = bytes }, rest)

-- The loop, on fuel: each round takes the type byte at least.
unfoldable pub frames_loop : ℕ → List Chunk → List ℕ → Scan (List Chunk)
frames_loop fuel chunks [] = ok chunks
frames_loop zero chunks (ft ∷ rest) = stuck
frames_loop (suc f) chunks (ft ∷ rest) = elim (ft == 0x00 || ft == 0x01) [
  | true ↦ frames_loop f chunks rest
  | false ↦ elim (ft == 0x06) [
    | false ↦ ok chunks
    | true ↦ elim (crypto_frame rest) [
      | ok (c, rest') ↦ frames_loop f (chunks ++ (c ∷ [])) rest'
      | stop ↦ ok chunks
      | panic ↦ panic
      | stuck ↦ stuck
    ]
  ]
]

unfoldable pub crypto_frames : List ℕ → Scan (List Chunk)
crypto_frames frames = frames_loop (length frames) [] frames
