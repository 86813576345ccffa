-- ===== src/Quic/Join/Stream.antt =====
-- The chunks as pieces of one stream.
use mirage_chaff.Base.{
  ℕ, zero, suc, ◌+◌, ◌-◌, ◌%◌, ◌^◌, ◌≤◌, ◌<◌, ◌≡◌, refl, ap, ◌∙◌, List, [], ◌∷◌, ◌++◌, length, take,
  drop, ltb, leb, All, Bool-cases, inl, inr, tests, arith,
}
use mirage_chaff.Quic.Frames.{Chunk}
use mirage_chaff.Quic.Join.{sort_loop, join_loop, join_crypto_chunks}
use mirage_chaff.Quic.Join.Order.{Ascends, sort-Ascends, All-sort}

module _ {ℓ} {A : Type ℓ} where
  take-nil : (n : ℕ) → take {A = A} n [] ≡ []
  take-nil zero = refl
  take-nil (suc n) = refl

  drop-nil : (n : ℕ) → drop {A = A} n [] ≡ []
  drop-nil zero = refl
  drop-nil (suc n) = refl

  take-append-drop-take :
      (d n : ℕ) (xs : List A) → d ≤ n → take d xs ++ drop d (take n xs) ≡ take n xs
  take-append-drop-take zero n xs h = refl
  take-append-drop-take (suc d) zero xs h = absurd (omega arith)
  take-append-drop-take (suc d) (suc n) [] h = refl
  take-append-drop-take (suc d) (suc n) (x ∷ xs) h =
      ap (◌∷◌ x) (take-append-drop-take d n xs (omega arith))

  -- A prefix and the rest of a slice that starts inside it make a longer prefix.
  prefix_extends :
      (off d n next k : ℕ) (xs : List A)
      → next ≡ off + d
      → k ≡ off + n
      → d ≤ n
      → take next xs ++ drop d (take n (drop off xs)) ≡ take k xs
  prefix_extends zero d n next k xs p q h =
      let p' : next ≡ d = omega arith in
      let q' : k ≡ n = omega arith in rw (p', q') (take-append-drop-take d n xs h)
  prefix_extends (suc off) d n next k [] p q h =
      rw (take-nil next, take-nil n, drop-nil d, take-nil k)
  prefix_extends (suc off) d n zero k (x ∷ xs) p q h = absurd (omega arith)
  prefix_extends (suc off) d n (suc next) zero (x ∷ xs) p q h = absurd (omega arith)
  prefix_extends (suc off) d n (suc next) (suc k) (x ∷ xs) p q h =
      ap (◌∷◌ x) (prefix_extends off d n next k xs (omega arith) (omega arith) h)

-- The chunk holds the bytes of the stream `s` at its offset.
pub record IsSlice (s : List ℕ) (c : Chunk) : Type 0 where
  pub same : c.bytes ≡ take (length c.bytes) (drop c.off s)
  pub within : c.off + length c.bytes ≤ length s

-- The chunk does not hold position `k`.
abbrev pub IsPast : ℕ → Chunk → Type 0
IsPast k c = c.off ≤ k → c.off + length c.bytes ≤ k

-- A prefix of the stream that ends where no chunk goes on.
pub record IsJoined (s : List ℕ) (cs : List Chunk) (start : ℕ) (out : List ℕ) : Type 0 where
  pub k : ℕ
  pub prefix : out ≡ take k s
  pub from : start ≤ k
  pub inside : k ≤ length s
  pub maximal : All (IsPast k) cs

gap-IsPast :
    (next off : ℕ) (cs : List Chunk) → next < off → All (λ d. off ≤ d.off) cs → All (IsPast next) cs
gap-IsPast next off [] h a = tt
gap-IsPast next off (c ∷ cs) h a = (λ le. absurd (omega (arith, a.0)), gap-IsPast next off cs h a.1)

more-IsJoined :
    (s : List ℕ) (c : Chunk) (cs : List Chunk) (start next : ℕ) (out : List ℕ)
    → start ≤ next
    → c.off + length c.bytes ≤ next
    → IsJoined s cs next out
    → IsJoined s (c ∷ cs) start out
more-IsJoined s c cs start next out h e j = record {
  k = j.k;
  prefix = j.prefix;
  from = omega (arith, j.from);
  inside = j.inside;
  maximal = (λ le. omega (arith, j.from), j.maximal);
}

join_loop-IsJoined :
    (s : List ℕ) (next : ℕ) (cs : List Chunk)
    → length s < 2 ^ 64
    → next ≤ length s
    → All (IsSlice s) cs
    → Ascends cs
    → IsJoined s cs next (join_loop next (take next s) cs)
unfolding join_loop
join_loop-IsJoined s next [] small h a asc = record {
  k = next;
  prefix = refl;
  from = omega arith;
  inside = h;
  maximal = tt;
}
join_loop-IsJoined s next (c ∷ cs) small h a asc =
    let whole : (c.off + length c.bytes) % 2 ^ 64 ≡ c.off + length c.bytes =
      omega (arith, a.0.within) in
    elim (Bool-cases (ltb next c.off)) [
      | inl gap ↦
          rw (gap, join_loop)
            (record {
              k = next;
              prefix = refl;
              from = omega arith;
              inside = h;
              maximal = (λ le. absurd (omega tests), gap-IsPast next c.off cs (omega tests) asc.0);
            })
      | inr near ↦
          let le : c.off ≤ next = ground arith in
          elim (Bool-cases (leb (c.off + length c.bytes) next)) [
            | inl old ↦
                rw (near, whole, old, join_loop)
                  (more-IsJoined s c cs next next _ (omega arith) (omega tests)
                    (join_loop-IsJoined s next cs small h a.1 asc.1))
            | inr new ↦
                let lt : next < c.off + length c.bytes = ground arith in
                let longer : take next s ++ drop (next - c.off) c.bytes
                    ≡ take (c.off + length c.bytes) s =
                  ap (λ b. take next s ++ drop (next - c.off) b) a.0.same
                  ∙ prefix_extends c.off (next - c.off) (length c.bytes) next
                      (c.off + length c.bytes) s (omega arith) refl (omega arith) in
                rw (near, whole, new, join_loop, longer, whole)
                  (more-IsJoined s c cs next (c.off + length c.bytes) _ (omega arith) (omega arith)
                    (join_loop-IsJoined s (c.off + length c.bytes) cs small a.0.within a.1 asc.1))
          ]
    ]

-- Chunks of one stream, in any order and overlapping as they may, join to a prefix of the stream
-- that ends at the first position which no chunk holds.
pub join_crypto_chunks-IsJoined :
    (s : List ℕ) (chunks : List Chunk)
    → length s < 2 ^ 64
    → All (IsSlice s) chunks
    → IsJoined s chunks 0 (join_crypto_chunks chunks)
unfolding join_crypto_chunks
join_crypto_chunks-IsJoined s chunks small a =
    let j =
      join_loop-IsJoined s 0 (sort_loop [] chunks) small (omega arith)
        ((All-sort (IsSlice s) chunks).0 a) (sort-Ascends chunks) in
    record {
      k = j.k;
      prefix = j.prefix;
      from = j.from;
      inside = j.inside;
      maximal = (All-sort (IsPast j.k) chunks).1 j.maximal;
    }
