-- ===== src/Policy/Aggregator/Lru.antt =====
-- What the aggregator promises: a bounded list of entries, last seen first. No map, no element
-- numbers.
pub mod Bound
use mirage_chaff.Base.{ℕ, ◌+◌, List, [], ◌∷◌, Bool, Option, none, some, leb, if◌then◌else◌, length}
use mirage_chaff.Base.Text.{Text, text_eq}
use mirage_chaff.Policy.Aggregator.{UnmatchedEntry, entry_key}

-- The key of an entry.
abbrev pub key_of : UnmatchedEntry → Text
key_of e = entry_key e.domain e.path

unfoldable pub find : Text → List UnmatchedEntry → Option UnmatchedEntry
find k [] = none
find k (e ∷ es) = if text_eq (key_of e) k then some e else find k es

unfoldable pub remove : Text → List UnmatchedEntry → List UnmatchedEntry
remove k [] = []
remove k (e ∷ es) = if text_eq (key_of e) k then es else e ∷ remove k es

unfoldable pub drop_last : List UnmatchedEntry → List UnmatchedEntry
drop_last [] = []
drop_last (e ∷ []) = []
drop_last (e ∷ f ∷ es) = e ∷ drop_last (f ∷ es)

-- A known entry counts one more and goes to the front; a new one goes to the front, and the last
-- one makes room for it.
unfoldable pub see : ℕ → Text → Text → ℕ → List UnmatchedEntry → List UnmatchedEntry
see max domain path now es =
    let k = entry_key domain path in
    elim (find k es) [
      | some e ↦ record e { count = e.count + 1; last = now } ∷ remove k es
      | none ↦
          record { domain = domain; path = path; count = 1; last = now }
          ∷ (if leb max (length es) then drop_last es else es)
    ]
