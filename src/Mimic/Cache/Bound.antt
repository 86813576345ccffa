-- ===== src/Mimic/Cache/Bound.antt =====
-- The cache keeps to its bound.
use mirage_chaff.Base.{
  ℕ, zero, suc, ◌≤◌, ◌<◌, ◌≡◌, refl, [], ◌∷◌, some, length, leb, ltb, Bool-cases, inl, inr, arith,
  tests, sym, ◌⊎◌,
}
use mirage_chaff.Base.Text.{Text, text_eq, text_eq_iff}
use mirage_chaff.Base.Dict.{Dict, delete, text_key, length-delete_le}
use mirage_chaff.Mimic.Cache.{
  CachedDecoy, CacheEntry, DecoyCache, oldest, drop_oldest, shrink, store_decoy,
}

-- A key of the map.
abbrev IsKey : Text → Dict Text CacheEntry → Type 0
IsKey k [] = ⊥
IsKey k ((j, e) ∷ m) = (j ≡ k) ⊎ IsKey k m

oldest-IsKey :
    (j : Text) (t : ℕ) (m : Dict Text CacheEntry)
    → (p : Text × ℕ) × (oldest (some (j, t)) m ≡ some p) × ((p.0 ≡ j) ⊎ IsKey p.0 m)
unfolding oldest
oldest-IsKey j t [] = ((j, t), refl, inl refl)
oldest-IsKey j t ((k, e) ∷ m) = elim (Bool-cases (ltb e.used t)) [
  | inl y ↦
      let (p, q, w) = oldest-IsKey k e.used m in
      rw y (p, q, inr (elim w [ inl s ↦ inl (sym s) | inr i ↦ inr i ]))
  | inr n ↦
      let (p, q, w) = oldest-IsKey j t m in
      rw n (p, q, elim w [ inl s ↦ inl s | inr i ↦ inr (inr i) ])
]

length-delete_key :
    (k : Text) (m : Dict Text CacheEntry) → IsKey k m → length (delete k m) < length m
unfolding delete
length-delete_key k [] i = absurd i
length-delete_key k ((j, e) ∷ m) i = elim (Bool-cases (text_eq j k)) [
  | inl y ↦ rw y (omega (arith, length-delete_le k m))
  | inr n ↦ elim i [
    | inl s ↦ absurd (ground (arith, n, (text_eq_iff j k).1 s))
    | inr r ↦ rw n (omega (arith, length-delete_key k m r))
  ]
]

length-drop_oldest :
    (n : ℕ) (m : Dict Text CacheEntry) → length m ≤ suc n → length (drop_oldest m) ≤ n
unfolding drop_oldest oldest
length-drop_oldest n [] h = omega arith
length-drop_oldest n ((k, e) ∷ m) h =
    let (p, q, w) = oldest-IsKey k e.used m in
    let key : IsKey p.0 ((k, e) ∷ m) = (elim w [ inl s ↦ inl (sym s) | inr i ↦ inr i ]) in
    rw (drop_oldest, q) (omega (arith, h, length-delete_key p.0 ((k, e) ∷ m) key))

length-shrink :
    (fuel max : ℕ) (m : Dict Text CacheEntry) → length m ≤ fuel → length (shrink fuel max m) ≤ max
unfolding shrink
length-shrink zero max m h = omega (arith, h)
length-shrink (suc fuel) max m h = elim (Bool-cases (leb (length m) max)) [
  | inl y ↦ rw (shrink, y) (omega tests)
  | inr n ↦ rw (shrink, n) (length-shrink fuel max (drop_oldest m) (length-drop_oldest fuel m h))
]

-- After a decoy is stored the cache holds no more entries than its bound, whatever it held before.
pub store_decoy_bounded :
    (h : DecoyCache) (url : Text) (d : CachedDecoy) (now : ℕ)
    → length (store_decoy h url d now).cache ≤ h.cache_max
unfolding store_decoy
store_decoy_bounded h url d now = length-shrink _ h.cache_max _ (omega arith)
