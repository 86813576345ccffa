-- ===== src/Managed/Catalog.antt =====
-- internal/aghmanaged/manager.go: the catalog as the administrator searches it.
use mirage_chaff.Base.{
  ℕ, ◌+◌, ◌/◌, ◌%◌, Bool, true, false, not, ◌&&◌, ◌||◌, List, [], ◌∷◌, ◌++◌, map, Option, none,
  some, ltb, if◌then◌else◌, zero, suc,
}
use mirage_chaff.Base.Text.{Text, text_eq, to_lower}
use mirage_chaff.Base.Strings.{trim_space, contains}
use mirage_chaff.Base.Dict.{Dict, lookup, text_key}
use mirage_chaff.Base.Int.{ℤ, pos, negsuc}
use mirage_chaff.Managed.Types.{Entry, Manager, Outcome, refused, done, not_exist}
use mirage_chaff.Managed.Rows.{
  CatalogRow, SourceRef, catalog_row, sort_catalog_rows, string_in_slice,
}
use mirage_chaff.Managed.Conflicts.{sorted_keys}
use mirage_chaff.Managed.Paging.{Page, page}

-- `fmt.Sprint` of an integer, with fuel for its digits.
unfoldable pub decimal : ℕ → ℕ → Text
decimal zero n = []
decimal (suc f) n =
    let rest = decimal f (n / 10) ++ (b'0' + n % 10) ∷ [] in
    if ltb n 10 then (b'0' + n) ∷ [] else rest

unfoldable pub print_int : ℤ → Text
print_int (pos n) = decimal (n + 1) n
print_int (negsuc n) = b'-' ∷ decimal (n + 2) (n + 1)

-- `strings.Join(parts, " ")`
unfoldable pub join_spaces : List Text → Text
join_spaces [] = []
join_spaces (t ∷ []) = t
join_spaces (t ∷ u ∷ ts) = t ++ (b' ' ∷ join_spaces (u ∷ ts))

unfoldable pub ref_parts : List SourceRef → List Text
ref_parts [] = []
ref_parts (r ∷ rs) = r.id ∷ r.name ∷ r.kind ∷ r.url ∷ print_int r.priority ∷ ref_parts rs

unfoldable pub catalog_row_search_text : CatalogRow → Text
catalog_row_search_text row =
    let e = row.entry in
    to_lower (
      join_spaces (
        e.id
        ∷ e.domain
        ∷ e.path
        ∷ join_spaces row.source_ids
        ∷ join_spaces (ref_parts row.source_refs)
        ∷ e.category
        ∷ e.resource_type
        ∷ e.risk
        ∷ e.review_status
        ∷ e.confidence
        ∷ e.expected_catalog
        ∷ row.action
        ∷ row.notes
        ∷ row.rewrite_reason
        ∷ row.last_changed_by
        ∷ e.original_rule
        ∷ []))

pub record CatalogQuery : Type 0 where
  pub q : Text
  pub source : Text
  pub category : Text
  pub resource_type : Text
  pub review_status : Text
  pub rewrite_enabled : Option Bool
  pub unsupported : Option Bool
  pub limit : ℤ
  pub offset : ℤ

-- `want == "" || want == got`
unfoldable pub asks_text : Text → Text → Bool
asks_text want got = text_eq want [] || text_eq got want

abbrev same_bool : Bool → Bool → Bool
same_bool true b = b
same_bool false b = not b

unfoldable pub asks_bool : Option Bool → Bool → Bool
asks_bool none got = true
asks_bool (some want) got = same_bool want got

-- `strings.TrimSpace(q) == "" || strings.Contains(text, lower-cased q)`
unfoldable pub asks_words : Text → Text → Bool
asks_words q text = text_eq (trim_space q) [] || contains text (to_lower (trim_space q))

unfoldable pub catalog_row_matches_query : CatalogRow → CatalogQuery → Bool
catalog_row_matches_query row q =
    (text_eq q.source [] || string_in_slice q.source row.source_ids)
    && asks_text q.category row.entry.category
    && asks_text q.resource_type row.entry.resource_type
    && asks_text q.review_status row.entry.review_status
    && asks_bool q.rewrite_enabled row.rewrite_enabled
    && asks_bool q.unsupported row.entry.unsupported
    && asks_words q.q (catalog_row_search_text row)

unfoldable pub filter_rows : CatalogQuery → List CatalogRow → List CatalogRow
filter_rows q [] = []
filter_rows q (row ∷ rows) =
    if catalog_row_matches_query row q then row ∷ filter_rows q rows else filter_rows q rows

unfoldable pub catalog_rows : Manager → Dict Text Entry → List CatalogRow
catalog_rows m [] = []
catalog_rows m ((id, e) ∷ es) = catalog_row m e ∷ catalog_rows m es

-- None is a panic of the slice.
unfoldable pub catalog_page : CatalogQuery → Manager → Option (Page CatalogRow)
catalog_page q m =
    page q.offset q.limit (sort_catalog_rows (filter_rows q (catalog_rows m m.entries)))

unfoldable pub owned_entries : Text → Dict Text Entry → Dict Text Entry
owned_entries id [] = []
owned_entries id ((eid, e) ∷ es) =
    if text_eq e.source_name id then (eid, e) ∷ owned_entries id es else owned_entries id es

unfoldable pub source_entries_page :
    Text → CatalogQuery → Manager → Outcome (Option (Page CatalogRow))
source_entries_page id q m = elim (lookup id m.sources) [
  | none ↦ refused not_exist
  | some src ↦ done (
      page q.offset q.limit
        (sort_catalog_rows (filter_rows q (catalog_rows m (owned_entries id m.entries)))))
]

pub record CatalogFacets : Type 0 where
  pub sources : List Text
  pub categories : List Text
  pub resource_types : List Text
  pub review_statuses : List Text
  pub unsupported : ℕ
  pub supported : ℕ
  pub total : ℕ

-- `if t != "" { set[t] = true }` for each of the texts.
unfoldable pub nonempty_texts : List Text → List Text
nonempty_texts [] = []
nonempty_texts (t ∷ ts) = if text_eq t [] then nonempty_texts ts else t ∷ nonempty_texts ts

unfoldable pub all_sources : List CatalogRow → List Text
all_sources [] = []
all_sources (row ∷ rows) = row.source_ids ++ all_sources rows

unfoldable pub count_rows : Bool → List CatalogRow → ℕ
count_rows unsupported [] = 0
count_rows unsupported (row ∷ rows) =
    (if same_bool unsupported row.entry.unsupported then 1 else 0) + count_rows unsupported rows

abbrev facet : List Text → List Text
facet ts = sorted_keys (nonempty_texts ts)

unfoldable pub catalog_facets : CatalogQuery → Manager → CatalogFacets
catalog_facets q m =
    let rows = filter_rows q (catalog_rows m m.entries) in
    record {
      sources = facet (all_sources rows);
      categories = facet (map (λ (r : CatalogRow). r.entry.category) rows);
      resource_types = facet (map (λ (r : CatalogRow). r.entry.resource_type) rows);
      review_statuses = facet (map (λ (r : CatalogRow). r.entry.review_status) rows);
      unsupported = count_rows true rows;
      supported = count_rows false rows;
      total = count_rows true rows + count_rows false rows;
    }
