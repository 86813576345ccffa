-- ===== src/Policy/Aggregator.antt =====
-- internal/policy/engine.go: the aggregator of unmatched requests. An element of the intrusive list
-- is named by a number that no other element has; the map holds these numbers. A count is below
-- the bound of int64.
pub mod Lru
pub mod Elements
pub mod Refines
use mirage_chaff.Base.{
  ℕ, ◌+◌, List, [], ◌∷◌, ◌++◌, Bool, true, false, Option, none, some, ltb, leb, ◌==◌, if◌then◌else◌,
  length, take, ◌&&◌, ◌||◌, not,
}
use mirage_chaff.Base.Text.{Text, codes}
use mirage_chaff.Base.Sort.{sort_by, text_lt}
use mirage_chaff.Base.Dict.{Dict, lookup, insert, delete, text_key}

pub record UnmatchedEntry : Type 0 where
  pub domain : Text
  pub path : Text
  pub count : ℕ
  pub last : ℕ

pub record Element : Type 0 where
  pub id : ℕ
  pub value : UnmatchedEntry

pub record Aggregator : Type 0 where
  pub max : ℕ
  -- Front first.
  pub ll : List Element
  pub items : Dict Text ℕ
  -- The number of the next element.
  pub next_id : ℕ

unfoldable pub new_aggregator : ℕ → Aggregator
new_aggregator max = record { max = max; ll = []; items = []; next_id = 0 }

unfoldable pub entry_key : Text → Text → Text
entry_key domain path = domain ++ (codes " " ++ path)

unfoldable pub find_element : ℕ → List Element → Option Element
find_element id [] = none
find_element id (e ∷ es) = if e.id == id then some e else find_element id es

unfoldable pub remove_element : ℕ → List Element → List Element
remove_element id [] = []
remove_element id (e ∷ es) = if e.id == id then es else e ∷ remove_element id es

-- `ll.Back()`
unfoldable pub back : List Element → Option Element
back [] = none
back (e ∷ []) = some e
back (e ∷ f ∷ es) = back (f ∷ es)

-- The branch for a pair that is there: one more, seen now, to the front.
unfoldable pub hit : Aggregator → ℕ → ℕ → Aggregator
hit a id now = elim (find_element id a.ll) [
  | none ↦ a
  | some e ↦ record a {
    ll =
        record { id = id; value = record e.value { count = e.value.count + 1; last = now } }
        ∷ remove_element id a.ll;
  }
]

-- Room for one more element.
unfoldable pub evict : Aggregator → Aggregator
evict a = elim (back a.ll) [
  | none ↦ a
  | some b ↦ record a {
    ll = remove_element b.id a.ll;
    items = delete (entry_key b.value.domain b.value.path) a.items;
  }
]

unfoldable pub push_front : Aggregator → Text → Text → ℕ → Aggregator
push_front a domain path now = record a {
  ll =
      record {
        id = a.next_id;
        value = record { domain = domain; path = path; count = 1; last = now };
      }
      ∷ a.ll;
  items = insert (entry_key domain path) a.next_id a.items;
  next_id = a.next_id + 1;
}

-- `record` of the source.
unfoldable pub record_unmatched : Aggregator → Text → Text → ℕ → Aggregator
record_unmatched a domain path now = elim (lookup (entry_key domain path) a.items) [
  | some id ↦ hit a id now
  | none ↦ push_front (if leb a.max (length a.ll) then evict a else a) domain path now
]

-- The comparison of `top`: the higher count first, then by domain.
unfoldable pub seen_more : UnmatchedEntry → UnmatchedEntry → Bool
seen_more a b = if a.count == b.count then text_lt a.domain b.domain else ltb b.count a.count

unfoldable pub values_in : List Element → List UnmatchedEntry
values_in [] = []
values_in (e ∷ es) = e.value ∷ values_in es

-- `top`, all entries for 0, which also stands for the negative numbers.
unfoldable pub top : ℕ → Aggregator → List UnmatchedEntry
top n a =
    let out = sort_by seen_more (values_in a.ll) in
    if not (n == 0) && ltb n (length out) then take n out else out
