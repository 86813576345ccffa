-- ===== src/Mimic/Cache.antt =====
-- internal/mimic/handler.go: the bounded cache of decoys. The loop over the map takes its entries in the
-- order of the list; of several entries that were used least recently it takes the first.
pub mod Bound
use mirage_chaff.Base.{
  ℕ, zero, suc, ◌+◌, ◌-◌, Bool, true, false, List, [], ◌∷◌, Option, none, some, length, leb, ltb,
  if◌then◌else◌,
}
use mirage_chaff.Base.Text.{Text}
use mirage_chaff.Base.Dict.{Dict, lookup, insert, delete, text_key}
use mirage_chaff.Mimic.Generator.{Shape}

pub record CachedDecoy : Type 0 where
  pub shape : Shape
  pub seed : Text
  pub hash : List ℕ

pub record CacheEntry : Type 0 where
  pub decoy : CachedDecoy
  pub used : ℕ

pub record DecoyCache : Type 0 where
  pub cache_max : ℕ
  pub cache : Dict Text CacheEntry

-- `Lookup`
unfoldable pub lookup_decoy : DecoyCache → Text → ℕ → Option CachedDecoy × DecoyCache
lookup_decoy h url now = elim (lookup url h.cache) [
  | none ↦ (none, h)
  | some e ↦ (some e.decoy, record h { cache = insert url (record e { used = now }) h.cache })
]

-- The inner loop of `storeDecoy`, with the oldest entry so far.
unfoldable pub oldest : Option (Text × ℕ) → Dict Text CacheEntry → Option (Text × ℕ)
oldest best [] = best
oldest none ((k, e) ∷ m) = oldest (some (k, e.used)) m
oldest (some (j, t)) ((k, e) ∷ m) =
    oldest (if ltb e.used t then some (k, e.used) else some (j, t)) m

-- One round of the outer loop.
unfoldable pub drop_oldest : Dict Text CacheEntry → Dict Text CacheEntry
drop_oldest m = elim (oldest none m) [ none ↦ m | some (k, t) ↦ delete k m ]

-- `for len(h.cache) > h.cacheMax`. Each round drops an entry, so as many rounds as there are entries
-- are enough.
unfoldable pub shrink : ℕ → ℕ → Dict Text CacheEntry → Dict Text CacheEntry
shrink zero max m = m
shrink (suc fuel) max m =
    let rest = shrink fuel max (drop_oldest m) in if leb (length m) max then m else rest

-- `storeDecoy`
unfoldable pub store_decoy : DecoyCache → Text → CachedDecoy → ℕ → DecoyCache
store_decoy h url d now =
    let m = insert url (record { decoy = d; used = now }) h.cache in
    record h { cache = shrink (length m) h.cache_max m }
