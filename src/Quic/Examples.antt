-- ===== src/Quic/Examples.antt =====
-- Bytes of each kind that the QUIC parser reads.
use mirage_chaff.Base.{
  ℕ, zero, ◌+◌, ◌≡◌, ◌⊎◌, refl, true, List, [], ◌∷◌, some, length, replicate, All, arith,
  length-replicate, subst,
}
use mirage_chaff.Base.Text.{codes}
use mirage_chaff.Base.Scan.{
  ok, stop, ◌>>=◌, ◌>>◌, require, index, slice, slice_from, slice_to, checked,
}
use mirage_chaff.Quic.Varint.{read_varint, shift_in}
use mirage_chaff.Quic.Varint.Wire.{one, two}
use mirage_chaff.Quic.Frames.{Chunk, crypto_frames, frames_loop, crypto_frame}
use mirage_chaff.Quic.Frames.Wire.{Frame, padding, ping, crypto}
use mirage_chaff.Quic.Join.{join_crypto_chunks}
use mirage_chaff.Quic.Join.Stream.{IsSlice, IsJoined, join_crypto_chunks-IsJoined}
use mirage_chaff.Quic.Initial.{Crypto, IsCrypto, extract_initial_crypto}
use mirage_chaff.Quic.Initial.Safe.{extract_initial_crypto_total}
use mirage_chaff.Quic.Extractor.{Fed, new_extractor, feed}
use mirage_chaff.Quic.Initial.{
  parse_header, derive_client_initial_keys, is_v1, hkdf_expand_label, open_packet, unmask_first,
  unmask, packet_nonce, label_info, packet_number,
}
use mirage_chaff.Quic.Extractor.Hello.{feed-hello}
use mirage_chaff.Passthrough.Sni.Hello.{Hello, IsHello, hello_wire}
use mirage_chaff.Quic.Extractor.Done.{IsEnded, feed-IsEnded}

abbrev short : List ℕ
short = 0x40 ∷ []

abbrev stream : List ℕ
stream = 1 ∷ 2 ∷ 3 ∷ 4 ∷ 5 ∷ []

abbrev front : Chunk
front = record { off = 0; bytes = 1 ∷ 2 ∷ 3 ∷ [] }

abbrev tail : Chunk
tail = record { off = 2; bytes = 3 ∷ 4 ∷ 5 ∷ [] }

abbrev frames : List Frame
frames = padding ∷ crypto one two tail ∷ ping ∷ crypto two one front ∷ []

abbrev slices : All (IsSlice stream) (tail ∷ front ∷ [])
slices = (
  record { same = refl; within = omega arith },
  (record { same = refl; within = omega arith }, tt),
)

join_crypto_chunks-IsJoined_example :
    IsJoined stream (tail ∷ front ∷ []) 0 (join_crypto_chunks (tail ∷ front ∷ []))
join_crypto_chunks-IsJoined_example =
    join_crypto_chunks-IsJoined stream (tail ∷ front ∷ []) (omega arith) slices

-- Primitives that keep to their lengths: zeros for the keys and the mask, and the ciphertext itself as
-- the plaintext.
abbrev plain : Crypto
plain = record {
  hkdf_extract = λ secret salt. [];
  hkdf_expand = λ secret info n. some (replicate n 0);
  aes_block = λ key block. some (replicate 16 0);
  gcm_open = λ key nonce ciphertext ad. some ciphertext;
}

plain-IsCrypto : IsCrypto plain
plain-IsCrypto = record {
  expand_length = λ secret info n out e.
      let same : replicate n 0 ≡ out = ground (arith, e) in
      subst (λ (o : List ℕ). length o ≡ n) same (length-replicate n zero);
  block_length = λ key block out e.
      let same : replicate 16 0 ≡ out = ground (arith, e) in
      subst (λ (o : List ℕ). length o ≡ 16) same (length-replicate 16 zero);
}

-- An Initial with two bytes of connection id, whose payload is one CRYPTO frame and padding.
abbrev datagram : List ℕ
datagram =
    0xc0 ∷ 0 ∷ 0 ∷ 0 ∷ 1 ∷ 2 ∷ 8 ∷ 9 ∷ 0 ∷ 0 ∷ 27 ∷ 0 ∷ (0x06 ∷ 0 ∷ 3 ∷ 1 ∷ 2 ∷ 3 ∷ replicate 20 0)

extract_initial_crypto_total_example :
    ((chunks : List Chunk) × (extract_initial_crypto plain datagram ≡ ok chunks))
    ⊎ (extract_initial_crypto plain datagram ≡ stop)
extract_initial_crypto_total_example = extract_initial_crypto_total plain plain-IsCrypto datagram

feed-IsEnded_example :
    (f : Fed) × (feed plain new_extractor datagram ≡ ok f)
    × (f.after.packets ≡ new_extractor.packets + 1)
    × IsEnded f
feed-IsEnded_example = feed-IsEnded plain plain-IsCrypto new_extractor datagram

abbrev hello : Hello
hello = record {
  fixed = replicate 34 7;
  session = [];
  suites = [];
  methods = [];
  before = [];
  others = [];
  host = codes "a.io";
  more_names = [];
  trailing = [];
  after = [];
  rest = [];
}

hello-IsHello : IsHello hello
hello-IsHello = record { fixed_34 = refl; before_other = tt; names_other = tt }

abbrev whole : Chunk
whole = record { off = 0; bytes = hello_wire hello }

-- The whole ClientHello in one CRYPTO frame.
abbrev hello_datagram : List ℕ
hello_datagram =
    0xc0
    ∷ 0
    ∷ 0
    ∷ 0
    ∷ 1
    ∷ 0
    ∷ 0
    ∷ 0
    ∷ 0x40
    ∷ (length whole.bytes + 4)
    ∷ 0
    ∷ (0x06 ∷ 0 ∷ length whole.bytes ∷ whole.bytes)

hello_chunks : extract_initial_crypto plain hello_datagram ≡ ok (whole ∷ [])
unfolding extract_initial_crypto parse_header derive_client_initial_keys ◌>>=◌ ◌>>◌ require index
    slice is_v1 slice_from read_varint checked hkdf_expand_label open_packet slice_to unmask_first
    unmask packet_nonce crypto_frames frames_loop crypto_frame label_info packet_number shift_in
hello_chunks = refl

feed-hello_example :
    feed plain new_extractor hello_datagram
    ≡ ok (record {
      after = record { chunks = whole ∷ []; packets = 0 + 1 };
      sni = codes "a.io";
      done = true;
    })
feed-hello_example =
    feed-hello plain new_extractor hello_datagram (whole ∷ []) hello [] hello_chunks hello-IsHello
      (λ e. cc) (omega arith) (record { same = refl; within = omega arith }, tt)
      (λ k lt past. omega (arith, past.0 (omega arith), lt))
