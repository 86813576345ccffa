-- ===== src/Quic/Extractor/Hello.antt =====
-- A ClientHello that was cut into CRYPTO frames, over one datagram or several.
use mirage_chaff.Base.{
  ℕ, zero, suc, ◌+◌, ◌-◌, ◌^◌, ◌≤◌, ◌<◌, ◌≡◌, ◌≢◌, ◌⊎◌, inl, inr, ap, ◌∙◌, true, false, List, [],
  ◌∷◌, ◌++◌, All, length, take, arith,
}
use mirage_chaff.Base.Text.{text_eq, text_eq_iff}
use mirage_chaff.Base.Scan.{ok, ◌>>=◌}
use mirage_chaff.Passthrough.Sni.{parse_sni}
use mirage_chaff.Passthrough.Sni.Hello.{Hello, IsHello, hello_wire, parse_sni-hello_append}
use mirage_chaff.Quic.Frames.{Chunk}
use mirage_chaff.Quic.Join.{join_crypto_chunks}
use mirage_chaff.Quic.Join.Stream.{IsSlice, IsPast, join_crypto_chunks-IsJoined}
use mirage_chaff.Quic.Initial.{Crypto, extract_initial_crypto}
use mirage_chaff.Quic.Extractor.{Extractor, feed_chunks, feed}

-- Each of the first `n` positions is held by some chunk.
abbrev pub Covers : ℕ → List Chunk → Type 0
Covers n chunks = (k : ℕ) → k < n → ¬ All (IsPast k) chunks

take-append_le {ℓ} :
    {A : Type ℓ} (k : ℕ) (xs ys : List A)
    → length xs ≤ k
    → take k (xs ++ ys) ≡ xs ++ take (k - length xs) ys
take-append_le k [] ys h = ap (λ n. take n ys) (minus_zero k)
  where
    minus_zero : (k : ℕ) → k ≡ k - 0
    minus_zero k = omega arith
take-append_le zero (x ∷ xs) ys h = absurd (omega arith)
take-append_le (suc k) (x ∷ xs) ys h =
    ap (◌∷◌ x)
      (take-append_le k xs ys (omega arith) ∙ ap (λ n. xs ++ take n ys) (minus_suc k (length xs)))
  where
    minus_suc : (a b : ℕ) → a - b ≡ suc a - suc b
    minus_suc a b = omega arith

-- The chunks belong to a stream that begins with the message.
pub join-hello :
    (h : Hello) (rest : List ℕ) (chunks : List Chunk)
    → IsHello h
    → length (hello_wire h ++ rest) < 2 ^ 64
    → All (IsSlice (hello_wire h ++ rest)) chunks
    → Covers (length (hello_wire h)) chunks
    → parse_sni (join_crypto_chunks chunks) ≡ ok h.host
join-hello h rest chunks v small slices covers =
    let j = join_crypto_chunks-IsJoined (hello_wire h ++ rest) chunks small slices in
    let n = length (hello_wire h) in
    elim (le_or_lt n j.k) [
      | inr lt ↦ absurd (covers j.k lt j.maximal)
      | inl le ↦
          rw (j.prefix, take-append_le j.k (hello_wire h) rest le)
            (parse_sni-hello_append h (take (j.k - n) rest) v)
    ]
  where
    le_or_lt : (a b : ℕ) → (a ≤ b) ⊎ (b < a)
    le_or_lt a b = grind arith

-- Once the gathered chunks cover a ClientHello, in whatever order and from whatever datagrams they
-- came, `Feed` returns its host name and is done.
pub feed-hello :
    (c : Crypto) (e : Extractor) (b : List ℕ) (chunks : List Chunk) (h : Hello) (rest : List ℕ)
    → extract_initial_crypto c b ≡ ok chunks
    → IsHello h
    → h.host ≢ []
    → length (hello_wire h ++ rest) < 2 ^ 64
    → All (IsSlice (hello_wire h ++ rest)) (e.chunks ++ chunks)
    → Covers (length (hello_wire h)) (e.chunks ++ chunks)
    → feed c e b
      ≡ ok (record {
        after = record { chunks = e.chunks ++ chunks; packets = e.packets + 1 };
        sni = h.host;
        done = true;
      })
unfolding feed feed_chunks ◌>>=◌
feed-hello c e b chunks h rest x v named small slices covers =
    let other : text_eq h.host [] ≡ false = ground (arith, text_eq_iff h.host []) in
    rw (
      x,
      feed,
      feed_chunks,
      join-hello h rest (e.chunks ++ chunks) v small slices covers,
      ◌>>=◌,
      other,
    )
