-- ===== src/Quic/Join/Order.antt =====
-- The insertion sort of the chunks: it keeps them all and orders them by offset.
use mirage_chaff.Base.{
  ℕ, ◌≤◌, List, [], ◌∷◌, ◌++◌, ltb, All, Bool-cases, inl, inr, tests, arith, ◌↔◌,
}
use mathlib.Core.List.{reverse, reverse-cons}
use mirage_chaff.Quic.Frames.{Chunk}
use mirage_chaff.Quic.Join.{sink, sort_loop}

-- No chunk starts before one on its left.
abbrev pub Ascends : List Chunk → Type 0
Ascends [] = Unit {0}
Ascends (c ∷ cs) = All (λ d. c.off ≤ d.off) cs × Ascends cs

abbrev Descends : List Chunk → Type 0
Descends [] = Unit {0}
Descends (c ∷ cs) = All (λ d. d.off ≤ c.off) cs × Descends cs

module _ (P : Chunk → Type 0) where
  All-sink : (c : Chunk) (ps : List Chunk) → P c × All P ps ↔ All P (sink c ps)
  unfolding sink
  All-sink c [] = (λ h. h, λ h. h)
  All-sink c (p ∷ ps) = elim (Bool-cases (ltb c.off p.off)) [
    | inr e ↦ rw (e, sink) (λ h. h, λ h. h)
    | inl e ↦
        rw (e, sink)
          (
            λ h. (h.1.0, (All-sink c ps).0 (h.0, h.1.1)),
            λ h. let (a, b) = (All-sink c ps).1 h.1 in (a, (h.0, b)),
          )
  ]

  All-snoc : (xs : List Chunk) (x : Chunk) → All P xs × P x ↔ All P (xs ++ (x ∷ []))
  All-snoc [] x = (λ h. (h.1, tt), λ h. (tt, h.0))
  All-snoc (y ∷ xs) x = (
    λ h. (h.0.0, (All-snoc xs x).0 (h.0.1, h.1)),
    λ h. let (a, b) = (All-snoc xs x).1 h.1 in ((h.0, a), b),
  )

  All-reverse : (xs : List Chunk) → All P xs ↔ All P (reverse xs)
  All-reverse [] = (λ h. h, λ h. h)
  All-reverse (x ∷ xs) = rw (reverse-cons x xs) (
    λ h. (All-snoc (reverse xs) x).0 ((All-reverse xs).0 h.1, h.0),
    λ h. let (a, b) = (All-snoc (reverse xs) x).1 h in (b, (All-reverse xs).1 a),
  )

  All-sort_loop : (left cs : List Chunk) → All P left × All P cs ↔ All P (sort_loop left cs)
  unfolding sort_loop
  All-sort_loop left [] = (λ h. (All-reverse left).0 h.0, λ h. ((All-reverse left).1 h, tt))
  All-sort_loop left (c ∷ cs) = (
    λ h. (All-sort_loop (sink c left) cs).0 ((All-sink c left).0 (h.1.0, h.0), h.1.1),
    λ h.
        let (a, b) = (All-sort_loop (sink c left) cs).1 h in
        let (x, y) = (All-sink c left).1 a in (y, (x, b)),
  )

All-le_trans :
    (a b : ℕ) (ps : List Chunk) → a ≤ b → All (λ d. d.off ≤ a) ps → All (λ d. d.off ≤ b) ps
All-le_trans a b [] h p = tt
All-le_trans a b (c ∷ ps) h p = (omega (arith, p.0), All-le_trans a b ps h p.1)

sink-Descends : (c : Chunk) (ps : List Chunk) → Descends ps → Descends (sink c ps)
unfolding sink
sink-Descends c [] h = (tt, tt)
sink-Descends c (p ∷ ps) h = elim (Bool-cases (ltb c.off p.off)) [
  | inl e ↦
      rw (e, sink)
        ((All-sink (λ d. d.off ≤ p.off) c ps).0 (omega tests, h.0), sink-Descends c ps h.1)
  | inr e ↦
      let le : p.off ≤ c.off = ground arith in
      rw (e, sink) ((le, All-le_trans p.off c.off ps le h.0), h)
]

Ascends-snoc :
    (xs : List Chunk) (x : Chunk)
    → Ascends xs
    → All (λ d. d.off ≤ x.off) xs
    → Ascends (xs ++ (x ∷ []))
Ascends-snoc [] x a h = (tt, tt)
Ascends-snoc (y ∷ xs) x a h =
    ((All-snoc (λ d. y.off ≤ d.off) xs x).0 (a.0, h.0), Ascends-snoc xs x a.1 h.1)

reverse-Ascends : (xs : List Chunk) → Descends xs → Ascends (reverse xs)
reverse-Ascends [] h = tt
reverse-Ascends (x ∷ xs) h = rw (reverse-cons x xs) (
    Ascends-snoc (reverse xs) x (reverse-Ascends xs h.1)
      ((All-reverse (λ d. d.off ≤ x.off) xs).0 h.0))

sort_loop-Ascends : (left cs : List Chunk) → Descends left → Ascends (sort_loop left cs)
unfolding sort_loop
sort_loop-Ascends left [] h = reverse-Ascends left h
sort_loop-Ascends left (c ∷ cs) h = sort_loop-Ascends (sink c left) cs (sink-Descends c left h)

pub sort-Ascends : (cs : List Chunk) → Ascends (sort_loop [] cs)
sort-Ascends cs = sort_loop-Ascends [] cs tt

pub All-sort : (P : Chunk → Type 0) (cs : List Chunk) → All P cs ↔ All P (sort_loop [] cs)
All-sort P cs = (λ h. (All-sort_loop P [] cs).0 (tt, h), λ h. ((All-sort_loop P [] cs).1 h).1)
