-- ===== src/Managed/Resolve/Winner.antt =====
-- The winner of a conflict by source priority.
use mirage_chaff.Base.{
  ◌≡◌, ◌⊎◌, ap, refl, Bool, true, false, not, ◌||◌, List, [], ◌∷◌, ◌++◌, Option, none, some, All,
  Bool-cases, inl, inr, arith, subst,
}
use mirage_chaff.Base.Int.{ℤ, ltz, pos, negsuc}
use mirage_chaff.Managed.Rows.{CatalogRow}
use mirage_chaff.Managed.Groups.{conflict_participant}
use mirage_chaff.Managed.Resolve.{winner_loop}

-- A row that takes part in the conflict has a priority below the winner's.
abbrev pub Below : CatalogRow → CatalogRow → Type 0
Below w r = (not (conflict_participant r) || ltz r.source_priority w.source_priority) ≡ true

ltz_trans : (a b c : ℤ) → ltz a b ≡ true → ltz b c ≡ true → ltz a c ≡ true
ltz_trans (pos a) (pos b) (pos c) h k = ground (arith, h, k)
ltz_trans (pos a) (pos b) (negsuc c) h k = absurd cc
ltz_trans (pos a) (negsuc b) c h k = absurd cc
ltz_trans (negsuc a) (pos b) (pos c) h k = refl
ltz_trans (negsuc a) (pos b) (negsuc c) h k = absurd cc
ltz_trans (negsuc a) (negsuc b) (pos c) h k = refl
ltz_trans (negsuc a) (negsuc b) (negsuc c) h k = ground (arith, h, k)

ltz-le_trans : (a b c : ℤ) → ltz a b ≡ false → ltz a c ≡ true → ltz b c ≡ true
ltz-le_trans (pos a) (pos b) (pos c) h k = ground (arith, h, k)
ltz-le_trans (pos a) b (negsuc c) h k = absurd cc
ltz-le_trans (pos a) (negsuc b) (pos c) h k = refl
ltz-le_trans (negsuc a) (pos b) c h k = absurd cc
ltz-le_trans (negsuc a) (negsuc b) (pos c) h k = refl
ltz-le_trans (negsuc a) (negsuc b) (negsuc c) h k = ground (arith, h, k)

-- The row stands among the rows, takes part, and all others that do are below it.
abbrev pub IsWinner : CatalogRow → List CatalogRow → Type 0
IsWinner v rows =
    (before : List CatalogRow) × (after : List CatalogRow) × (rows ≡ before ++ v ∷ after)
    × (conflict_participant v ≡ true)
    × All (Below v) before
    × All (Below v) after

-- What the rest of the rows makes of a winner so far.
abbrev Wins : CatalogRow → Bool → List CatalogRow → CatalogRow → Type 0
Wins w tied rows v =
    ((tied ≡ false) × (w ≡ v) × All (Below v) rows)
    ⊎ (IsWinner v rows × (ltz w.source_priority v.source_priority ≡ true))

IsWinner-cons :
    (v x : CatalogRow) (rows : List CatalogRow)
    → Below v x
    → IsWinner v rows
    → IsWinner v (x ∷ rows)
IsWinner-cons v x rows h (before, after, e, p, a, b) =
    (x ∷ before, after, ap (◌∷◌ x) e, p, (h, a), b)

Below-other : (v x : CatalogRow) → conflict_participant x ≡ false → Below v x
Below-other v x h = rw h

Below-lt : (v x : CatalogRow) → ltz x.source_priority v.source_priority ≡ true → Below v x
Below-lt v x h = ground (arith, h)

winner_loop-Wins :
    (w : CatalogRow) (tied : Bool) (rows : List CatalogRow) (v : CatalogRow)
    → winner_loop (some w, tied) rows ≡ (some v, false)
    → Wins w tied rows v
unfolding winner_loop
winner_loop-Wins w tied [] v h =
    let same : some w ≡ some v = ap (λ (x : Option CatalogRow × Bool). x.0) h in
    inl (ap (λ (x : Option CatalogRow × Bool). x.1) h, cc, tt)
winner_loop-Wins w tied (x ∷ rows) v h = elim (Bool-cases (conflict_participant x)) [
  | inr out ↦ elim (winner_loop-Wins w tied rows v (rw (out, winner_loop) at h)) [
    | inl (t, e, below) ↦ inl (t, e, (Below-other v x out, below))
    | inr (win, lt) ↦ inr (IsWinner-cons v x rows (Below-other v x out) win, lt)
  ]
  | inl takes ↦ elim (Bool-cases (ltz w.source_priority x.source_priority)) [
    | inl above ↦ elim (winner_loop-Wins x false rows v (rw (takes, above, winner_loop) at h)) [
      | inl (t, e, below) ↦ inr (
        (
          [],
          rows,
          ap (λ y. y ∷ rows) e,
          subst (λ y. conflict_participant y ≡ true) e takes,
          tt,
          below,
        ),
        subst (λ (y : CatalogRow). ltz w.source_priority y.source_priority ≡ true) e above,
      )
      | inr (win, lt) ↦ inr (
        IsWinner-cons v x rows (Below-lt v x lt) win,
        ltz_trans w.source_priority x.source_priority v.source_priority above lt,
      )
    ]
    | inr under ↦
        let tied' = tied || not (ltz x.source_priority w.source_priority) in
        elim (winner_loop-Wins w tied' rows v (rw (takes, under, winner_loop) at h)) [
          | inl (t, e, below) ↦
              let lower : ltz x.source_priority w.source_priority ≡ true = ground (arith, t) in
              let lower' =
                subst (λ (y : CatalogRow). ltz x.source_priority y.source_priority ≡ true) e
                  lower in
              inl (ground (arith, t), e, (Below-lt v x lower', below))
          | inr (win, lt) ↦ inr (
            IsWinner-cons v x rows
                (Below-lt v x
                  (ltz-le_trans w.source_priority x.source_priority v.source_priority under lt))
                win,
            lt,
          )
        ]
  ]
]

-- Where ResolveConflictByPriority finds a winner and no tie, the winner takes part in the conflict
-- and its source has a strictly higher priority than that of every other row that does.
pub winner_loop-IsWinner :
    (rows : List CatalogRow) (tied : Bool) (v : CatalogRow)
    → winner_loop (none, tied) rows ≡ (some v, false)
    → IsWinner v rows
unfolding winner_loop
winner_loop-IsWinner [] tied v h = absurd cc
winner_loop-IsWinner (x ∷ rows) tied v h = elim (Bool-cases (conflict_participant x)) [
  | inr out ↦
      IsWinner-cons v x rows (Below-other v x out)
        (winner_loop-IsWinner rows tied v (rw (out, winner_loop) at h))
  | inl takes ↦ elim (winner_loop-Wins x false rows v (rw (takes, winner_loop) at h)) [
    | inl (t, e, below) ↦ (
      [],
      rows,
      ap (λ y. y ∷ rows) e,
      subst (λ y. conflict_participant y ≡ true) e takes,
      tt,
      below,
    )
    | inr (win, lt) ↦ IsWinner-cons v x rows (Below-lt v x lt) win
  ]
]
