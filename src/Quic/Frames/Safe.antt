-- ===== src/Quic/Frames/Safe.antt =====
-- The frame loop on any plaintext.
use mirage_chaff.Base.{
  ℕ, zero, suc, ◌≤◌, ◌≡◌, refl, ◌||◌, List, [], ◌∷◌, ◌++◌, length, ◌==◌, inl, inr, Bool-cases,
  tests, arith,
}
use mirage_chaff.Base.Scan.{
  ok, Gives, gives, Gives-require, Gives-slice_from, Gives-slice_to, Gives-cases,
}
use mirage_chaff.Quic.Varint.{read_varint}
use mirage_chaff.Quic.Varint.Wire.{read_varint_bounds}
use mirage_chaff.Quic.Frames.{Chunk, crypto_frame, frames_loop, crypto_frames}

crypto_frame-Gives : (b : List ℕ) → Gives (λ t. length t.1 ≤ length b) (crypto_frame b)
unfolding crypto_frame
crypto_frame-Gives b = Gives-require _ _ _ λ h.
    Gives-slice_from _ (read_varint b).1 b _ (read_varint_bounds b) λ after e.
      Gives-require _ _ _ λ g.
        Gives-slice_from _ (read_varint after).1 after _ (read_varint_bounds after) λ content p.
          Gives-require _ _ _ λ fits.
            Gives-slice_to _ (read_varint after).0 content _ (omega tests) λ bytes q.
              Gives-slice_from _ (read_varint after).0 content _ (omega tests)
                λ rest r. gives _ (omega tests)

frames_loop-total :
    (fuel : ℕ) (chunks : List Chunk) (b : List ℕ)
    → length b ≤ fuel
    → (out : List Chunk) × (frames_loop fuel chunks b ≡ ok out)
unfolding frames_loop
frames_loop-total zero chunks [] h = (chunks, refl)
frames_loop-total (suc f) chunks [] h = (chunks, refl)
frames_loop-total zero chunks (ft ∷ rest) h = absurd (omega arith)
frames_loop-total (suc f) chunks (ft ∷ rest) h = elim (Bool-cases (ft == 0x00 || ft == 0x01)) [
  | inl e ↦ rw (e, frames_loop) (frames_loop-total f chunks rest (omega arith))
  | inr e ↦ elim (Bool-cases (ft == 0x06)) [
    | inr n ↦ rw (e, n, frames_loop) (chunks, refl)
    | inl y ↦ elim (Gives-cases _ (crypto_frame rest) (crypto_frame-Gives rest)) [
      | inr z ↦ rw (e, y, z, frames_loop) (chunks, refl)
      | inl ((c, rest'), z, shorter) ↦
          rw (e, y, z, frames_loop) (frames_loop-total f (chunks ++ (c ∷ [])) rest' (omega arith))
    ]
  ]
]

-- On any plaintext the frames are read to an end: no index or slice leaves the plaintext.
pub crypto_frames_total :
    (frames : List ℕ) → (chunks : List Chunk) × (crypto_frames frames ≡ ok chunks)
unfolding crypto_frames
crypto_frames_total frames = frames_loop-total (length frames) [] frames (omega arith)
