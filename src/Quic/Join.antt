-- ===== src/Quic/Join.antt =====
-- internal/quic/initial.go: putting CRYPTO chunks together.
pub mod Order
pub mod Stream
use mirage_chaff.Base.{
  ℕ, ◌+◌, ◌-◌, ◌%◌, ◌^◌, List, [], ◌∷◌, ◌++◌, length, drop, leb, ltb, true, false,
}
use mathlib.Core.List.{reverse}
use mirage_chaff.Quic.Frames.{Chunk}

-- The inner loop of the insertion sort: `c` moves left past every chunk with a larger offset. The
-- list is the part to its left, nearest first.
unfoldable pub sink : Chunk → List Chunk → List Chunk
sink c [] = c ∷ []
sink c (p ∷ ps) = elim (ltb c.off p.off) [ true ↦ p ∷ sink c ps | false ↦ c ∷ (p ∷ ps) ]

-- The outer loop; the sorted part is kept nearest first.
unfoldable pub sort_loop : List Chunk → List Chunk → List Chunk
unfolding sink
sort_loop left [] = reverse left
sort_loop left (c ∷ cs) = sort_loop (sink c left) cs

-- The second loop over the sorted chunks, on uint64.
unfoldable pub join_loop : ℕ → List ℕ → List Chunk → List ℕ
join_loop next out [] = out
join_loop next out (c ∷ cs) =
    let end = (c.off + length c.bytes) % 2 ^ 64 in
    elim (ltb next c.off) [
      | true ↦ out
      | false ↦ elim (leb end next) [
        | true ↦ join_loop next out cs
        | false ↦ join_loop end (out ++ drop (next - c.off) c.bytes) cs
      ]
    ]

unfoldable pub join_crypto_chunks : List Chunk → List ℕ
unfolding sort_loop join_loop
join_crypto_chunks chunks = join_loop 0 [] (sort_loop [] chunks)
