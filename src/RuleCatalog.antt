-- ===== src/RuleCatalog.antt =====
-- internal/rulecatalog/catalog.go: what a request's handling asks of the catalog of imported filter
-- rules. The store's map of entries is the list of its values in the order of one iteration.
pub mod Lookup
use mirage_chaff.Base.{
  ℕ, ◌+◌, Bool, true, false, not, ◌&&◌, ◌||◌, List, [], ◌∷◌, ◌++◌, Option, none, some, length, ltb,
  if◌then◌else◌,
}
use mirage_chaff.Base.Text.{Text, codes, text_eq, to_lower}
use mirage_chaff.Base.Strings.{has_prefix, has_suffix, contains, trim_prefix, trim_space}
use mirage_chaff.Policy.Rules.{trim_dot}

-- The fields of an entry that are asked for.
pub record CatalogEntry : Type 0 where
  pub id : Text
  pub domain : Text
  pub path : Text
  pub resource_type : Text
  pub risk : Text
  pub review_status : Text
  pub verified : Bool
  pub expected_catalog : Text
  pub tested_sites : List Text

unfoldable pub domain_matches : Text → Text → Bool
domain_matches domain pattern =
    let p = trim_prefix (trim_prefix pattern (codes "*.")) (codes ".") in
    text_eq domain p || has_suffix domain (codes "." ++ p)

-- The score of an entry for a request, none when it does not match.
unfoldable pub score : Text → Text → CatalogEntry → Option ℕ
score domain path e =
    if text_eq e.domain [] || not (domain_matches domain e.domain)
    then none
    else if text_eq e.path []
    then some (length e.domain)
    else if not (has_prefix path e.path) && not (contains path e.path)
    then none
    else some (length e.domain + (length e.path + 1000))

-- `score > bestScore`, where no entry yet is -1.
unfoldable pub beats : ℕ → Option (ℕ × CatalogEntry) → Bool
beats n none = true
beats n (some (m, e)) = ltb m n

-- The loop with the best entry so far.
unfoldable pub best_entry :
    Text → Text → Option (ℕ × CatalogEntry) → List CatalogEntry → Option (ℕ × CatalogEntry)
best_entry domain path best [] = best
best_entry domain path best (e ∷ es) = elim (score domain path e) [
  | none ↦ best_entry domain path best es
  | some n ↦ best_entry domain path (if beats n best then some (n, e) else best) es
]

abbrev pub entry_of : Option (ℕ × CatalogEntry) → Option CatalogEntry
entry_of none = none
entry_of (some (n, e)) = some e

-- `Store.Lookup`
unfoldable pub lookup_entry : Text → Text → List CatalogEntry → Option CatalogEntry
lookup_entry domain path es = entry_of (best_entry (to_lower (trim_dot domain)) path none es)

abbrev pub is_empty : List Text → Bool
is_empty [] = true
is_empty (t ∷ ts) = false

-- The loop over the tested sites.
unfoldable pub site_tested : Text → List Text → Bool
site_tested site [] = false
site_tested site (t ∷ ts) =
    let tested = to_lower (trim_dot (trim_space t)) in
    if text_eq tested []
    then site_tested site ts
    else if text_eq site tested || has_suffix site (codes "." ++ tested)
    then true
    else site_tested site ts

abbrev pub review_disabled : Text
review_disabled = codes "disabled"

unfoldable pub verified_stub_catalog : CatalogEntry → Text → Option Text
verified_stub_catalog e site =
    if not e.verified
      || (not (text_eq e.resource_type (codes "script"))
          || (text_eq e.expected_catalog [] || text_eq e.review_status review_disabled))
    then none
    else if is_empty e.tested_sites
    then some e.expected_catalog
    else if site_tested (to_lower (trim_dot site)) e.tested_sites
    then some e.expected_catalog
    else none
