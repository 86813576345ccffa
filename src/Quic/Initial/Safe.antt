-- ===== src/Quic/Initial/Safe.antt =====
-- The Initial parser on any datagram.
use mirage_chaff.Base.{
  ℕ, zero, suc, ◌+◌, ◌%◌, ◌≤◌, ◌<◌, ◌≡◌, ◌⊎◌, inl, inr, List, [], ◌∷◌, length, Option, none, some,
  le→leb, arith, tests,
}
use mirage_chaff.Base.Scan.{
  ok, stop, Gives, gives, early, Gives-bind, Gives-require, Gives-index, Gives-slice_from,
  Gives-slice, Gives-slice_to, Gives-checked, Gives-cases, checked,
}
use mirage_chaff.Quic.Frames.{Chunk}
use mirage_chaff.Quic.Frames.Safe.{crypto_frames_total}
use mirage_chaff.Quic.Initial.{
  Crypto, IsCrypto, Keys, Header, parse_header, unmask, packet_nonce, unmask_first,
  hkdf_expand_label, derive_client_initial_keys, open_packet, extract_initial_crypto,
}

abbrev Whatever {ℓ} : {A : Type ℓ} → A → Type 0
Whatever a = Unit {0}

-- The packet number stands behind a byte at least, with a sample's room behind it.
record IsHeader (b : List ℕ) (h : Header) : Type 0 where
  pub behind : 0 < h.pn_offset
  pub room : h.pn_offset + 20 ≤ length b

parse_header-Gives : (b : List ℕ) → Gives (IsHeader b) (parse_header b)
unfolding parse_header
parse_header-Gives b = Gives-require _ _ _ λ long. Gives-index _ b 0 _ (omega tests) λ b0.
    Gives-require _ _ _ λ form. Gives-require _ _ _ λ kind.
      Gives-slice _ 1 5 b _ (omega arith) (omega tests) λ version v. Gives-require _ _ _ λ v1.
        Gives-index _ b 5 _ (omega tests) λ dcid_len. Gives-require _ _ _ λ fits.
          Gives-slice _ 6 (6 + dcid_len) b _ (omega arith) (omega tests) λ dcid d.
            Gives-require _ _ _ λ more. Gives-index _ b (6 + dcid_len) _ (omega tests) λ scid_len.
              Gives-require _ _ _ λ token_in.
                Gives-slice_from _ (6 + dcid_len + 1 + scid_len) b _ (omega tests) λ token t.
                  Gives-require _ _ _ λ token_ok. Gives-require _ _ _ λ len_in.
                    Gives-slice_from _ _ b _ (omega tests) λ rest r.
                      Gives-require _ _ _
                        λ payload_ok. Gives-require _ _ _ λ sample_in. gives _ (omega tests)

unmask-Gives :
    (n i : ℕ) (b mask : List ℕ) (pn_offset : ℕ)
    → pn_offset + (i + n) ≤ length b
    → 1 + (i + n) ≤ length mask
    → Gives Whatever (unmask n i b mask pn_offset)
unfolding unmask
unmask-Gives zero i b mask pn_offset h g = gives [] tt
unmask-Gives (suc n) i b mask pn_offset h g = Gives-index _ b (pn_offset + i) _ (omega arith) λ d.
    Gives-index _ mask (1 + i) _ (omega arith) λ m.
      Gives-bind _ _ _ _ (unmask-Gives n (i + 1) b mask pn_offset (omega arith) (omega arith))
        λ rest _. gives _ tt

unmask_first-Gives : (b : List ℕ) (m : ℕ) → 0 < length b → Gives Whatever (unmask_first b m)
unfolding unmask_first
unmask_first-Gives [] m h = absurd (omega arith)
unmask_first-Gives (x ∷ xs) m h = gives _ tt

packet_nonce-Gives : (iv : List ℕ) (pn : ℕ) → length iv ≡ 12 → Gives Whatever (packet_nonce iv pn)
unfolding packet_nonce
packet_nonce-Gives iv pn h = rw (le→leb 8 (length iv) (omega arith)) (gives _ tt)

checked-Gives {ℓ} : {A : Type ℓ} (o : Option A) → Gives Whatever (checked o)
unfolding checked
checked-Gives none = early
checked-Gives (some a) = gives a tt

module _ (c : Crypto) (law : IsCrypto c) where
  derive-Gives : (dcid : List ℕ) → Gives (λ k. length k.iv ≡ 12) (derive_client_initial_keys c dcid)
  unfolding derive_client_initial_keys hkdf_expand_label
  derive-Gives dcid = Gives-checked _ _ _ λ client_secret s. Gives-checked _ _ _ λ key k.
      Gives-checked _ _ _
        λ iv e. Gives-checked _ _ _ λ hp p. gives _ (law.expand_length _ _ 12 iv e)

  open_packet-Gives :
      (b : List ℕ) (h : Header) (k : Keys)
      → IsHeader b h
      → length k.iv ≡ 12
      → Gives Whatever (open_packet c b h k)
  unfolding open_packet
  open_packet-Gives b h k v iv =
      Gives-slice _ (h.pn_offset + 4) (h.pn_offset + 4 + 16) b _ (omega arith) (omega arith)
        λ sample s. Gives-checked _ _ _ λ mask m.
          let size : length mask ≡ 16 = law.block_length _ _ mask m in
          Gives-slice_to _ h.pn_offset b _ (omega arith) λ plain p.
            Gives-index _ mask 0 _ (omega arith) λ m0.
              Gives-bind _ _ _ _ (unmask_first-Gives plain m0 (omega arith)) λ t _.
                Gives-bind _ _ _ _
                  (unmask-Gives (t.0 % 4 + 1) 0 b mask h.pn_offset (omega arith) (omega arith))
                  λ pn_bytes _. Gives-require _ _ _ λ bounds.
                    Gives-slice _ _ _ b _ (ground arith) (ground arith) λ ciphertext q.
                      Gives-bind _ _ _ _ (packet_nonce-Gives k.iv _ iv) λ nonce _. checked-Gives _

  extract_initial_crypto-Gives : (b : List ℕ) → Gives Whatever (extract_initial_crypto c b)
  unfolding extract_initial_crypto
  extract_initial_crypto-Gives b = Gives-bind _ _ _ _ (parse_header-Gives b) λ h v.
      Gives-bind _ _ _ _ (derive-Gives h.dcid) λ k iv.
        Gives-bind _ _ _ _ (open_packet-Gives b h k v iv)
          λ plaintext _. let (chunks, e) = crypto_frames_total plaintext in rw e (gives chunks tt)

  -- With primitives that keep to their documented lengths, any datagram at all either yields its
  -- CRYPTO chunks or is refused with an error: no index or slice leaves its slice.
  pub extract_initial_crypto_total :
      (b : List ℕ)
      → ((chunks : List Chunk) × (extract_initial_crypto c b ≡ ok chunks))
        ⊎ (extract_initial_crypto c b ≡ stop)
  extract_initial_crypto_total b =
      elim (Gives-cases _ (extract_initial_crypto c b) (extract_initial_crypto-Gives b)) [
        | inl (chunks, e, _) ↦ inl (chunks, e)
        | inr e ↦ inr e
      ]
