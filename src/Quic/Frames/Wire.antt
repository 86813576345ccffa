-- ===== src/Quic/Frames/Wire.antt =====
-- The frames of a client Initial by their wire format (RFC 9000, section 19), read back.
use mirage_chaff.Base.{
  ℕ, zero, suc, ◌≤◌, ◌<◌, ◌≡◌, ◌≢◌, refl, ap, ◌∙◌, sym, false, ◌||◌, List, [], ◌∷◌, ◌++◌, length,
  ◌==◌, arith, All, drop, append_assoc, append-nil, length-append, take-length_append,
  drop-length_append, le→leb,
}
use mirage_chaff.Base.Scan.{ok, ◌>>=◌, ◌>>◌, require, slice_from-ok, slice_to-ok}
use mirage_chaff.Quic.Varint.Wire.{
  Width, one, two, four, eight, size, limit, varint_wire, read_varint-wire,
}
use mirage_chaff.Quic.Frames.{Chunk, crypto_frame, frames_loop, crypto_frames}

-- A frame, with the widths that the sender chose for its two integers.
pub data Frame : Type 0 where
  padding : Frame
  ping : Frame
  crypto : Width → Width → Chunk → Frame

abbrev pub frame_wire : Frame → List ℕ → List ℕ
frame_wire padding rest = 0x00 ∷ rest
frame_wire ping rest = 0x01 ∷ rest
frame_wire (crypto w x c) rest =
    0x06 ∷ (varint_wire w c.off ++ (varint_wire x (length c.bytes) ++ (c.bytes ++ rest)))

abbrev pub frames_wire : List Frame → List ℕ → List ℕ
frames_wire [] rest = rest
frames_wire (f ∷ fs) rest = frame_wire f (frames_wire fs rest)

abbrev pub IsFrame : Frame → Type 0
IsFrame padding = Unit {0}
IsFrame ping = Unit {0}
IsFrame (crypto w x c) = (c.off < limit w) × (length c.bytes < limit x)

abbrev pub chunks_of : List Frame → List Chunk
chunks_of [] = []
chunks_of (padding ∷ fs) = chunks_of fs
chunks_of (ping ∷ fs) = chunks_of fs
chunks_of (crypto w x c ∷ fs) = c ∷ chunks_of fs

-- The end of the plaintext, or a frame of a type that is not handled.
abbrev pub IsTail : List ℕ → Type 0
IsTail [] = Unit {0}
IsTail (ft ∷ rest) = (1 < ft) × (ft ≢ 6)

length-varint_wire : (w : Width) (v : ℕ) → length (varint_wire w v) ≡ size w
unfolding varint_wire
length-varint_wire one v = refl
length-varint_wire two v = refl
length-varint_wire four v = refl
length-varint_wire eight v = refl

size_pos : (w : Width) → (size w == 0) ≡ false
size_pos one = refl
size_pos two = refl
size_pos four = refl
size_pos eight = refl

drop-varint : (w : Width) (v : ℕ) (rest : List ℕ) → drop (size w) (varint_wire w v ++ rest) ≡ rest
drop-varint w v rest = rw (← length-varint_wire w v) (drop-length_append (varint_wire w v) rest)

varint_fits : (w : Width) (v : ℕ) (rest : List ℕ) → size w ≤ length (varint_wire w v ++ rest)
varint_fits w v rest = omega (arith, length-varint_wire w v, length-append (varint_wire w v) rest)

crypto_frame-wire :
    (w x : Width) (c : Chunk) (rest : List ℕ)
    → IsFrame (crypto w x c)
    → crypto_frame (varint_wire w c.off ++ (varint_wire x (length c.bytes) ++ (c.bytes ++ rest)))
      ≡ ok (c, rest)
unfolding crypto_frame ◌>>=◌ ◌>>◌ require
crypto_frame-wire w x c rest v =
    let body = c.bytes ++ rest in
    let inner = varint_wire x (length c.bytes) ++ body in
    let fits : length c.bytes ≤ length body = omega (arith, length-append c.bytes rest) in
    rw (
      read_varint-wire w c.off inner v.0,
      size_pos w,
      slice_from-ok (size w) (varint_wire w c.off ++ inner) (varint_fits w c.off inner),
      drop-varint w c.off inner,
      read_varint-wire x (length c.bytes) body v.1,
      size_pos x,
      slice_from-ok (size x) inner (varint_fits x (length c.bytes) body),
      drop-varint x (length c.bytes) body,
      le→leb (length c.bytes) (length body) fits,
      slice_to-ok (length c.bytes) body fits,
      slice_from-ok (length c.bytes) body fits,
      take-length_append c.bytes rest,
      drop-length_append c.bytes rest,
    )

ne_tests :
    (ft : ℕ) → 1 < ft → ft ≢ 6 → ((ft == 0x00 || ft == 0x01) ≡ false) × ((ft == 0x06) ≡ false)
ne_tests ft h k = (ground arith, ground arith)

frames_loop-wire :
    (fuel : ℕ) (chunks : List Chunk) (fs : List Frame) (tail : List ℕ)
    → length (frames_wire fs tail) ≤ fuel
    → All IsFrame fs
    → IsTail tail
    → frames_loop fuel chunks (frames_wire fs tail) ≡ ok (chunks ++ chunks_of fs)
unfolding frames_loop
frames_loop-wire zero chunks [] [] h a t = ap ok (sym (append-nil chunks))
frames_loop-wire (suc f) chunks [] [] h a t = ap ok (sym (append-nil chunks))
frames_loop-wire zero chunks [] (ft ∷ rest) h a t = absurd (omega arith)
frames_loop-wire (suc f) chunks [] (ft ∷ rest) h a t =
    let (p, q) = ne_tests ft t.0 t.1 in rw (p, q, frames_loop) (ap ok (sym (append-nil chunks)))
frames_loop-wire zero chunks (padding ∷ fs) tail h a t = absurd (omega arith)
frames_loop-wire zero chunks (ping ∷ fs) tail h a t = absurd (omega arith)
frames_loop-wire zero chunks (crypto w x c ∷ fs) tail h a t = absurd (omega arith)
frames_loop-wire (suc f) chunks (padding ∷ fs) tail h a t =
    frames_loop-wire f chunks fs tail (omega arith) a.1 t
frames_loop-wire (suc f) chunks (ping ∷ fs) tail h a t =
    frames_loop-wire f chunks fs tail (omega arith) a.1 t
frames_loop-wire (suc f) chunks (crypto w x c ∷ fs) tail h a t =
    let rest = frames_wire fs tail in
    let inner = varint_wire x (length c.bytes) ++ (c.bytes ++ rest) in
    let shorter : length rest ≤ f = omega (
      arith,
      length-append (varint_wire w c.off) inner,
      length-append (varint_wire x (length c.bytes)) (c.bytes ++ rest),
      length-append c.bytes rest,
    ) in
    rw (crypto_frame-wire w x c rest a.0, frames_loop)
      (frames_loop-wire f (chunks ++ (c ∷ [])) fs tail shorter a.1 t
        ∙ ap ok (append_assoc chunks (c ∷ []) (chunks_of fs)))

-- Out of PADDING, PING and CRYPTO frames in any order, with any widths for their integers, the
-- chunks are those of the CRYPTO frames in their order, up to the end or the first other frame.
pub crypto_frames-wire :
    (fs : List Frame) (tail : List ℕ)
    → All IsFrame fs
    → IsTail tail
    → crypto_frames (frames_wire fs tail) ≡ ok (chunks_of fs)
unfolding crypto_frames
crypto_frames-wire fs tail a t =
    frames_loop-wire (length (frames_wire fs tail)) [] fs tail (omega arith) a t
