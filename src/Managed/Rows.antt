-- ===== src/Managed/Rows.antt =====
-- internal/aghmanaged/manager.go: presets, overrides over entries, and the rows of the catalog.
pub mod Presets
use mirage_chaff.Base.{
  ℕ, Bool, true, false, not, ◌&&◌, ◌||◌, List, [], ◌∷◌, map, none, some, leb, if◌then◌else◌,
}
use mirage_chaff.Base.Text.{Text, codes, text_eq, to_lower}
use mirage_chaff.Base.Dict.{Dict, lookup, text_key}
use mirage_chaff.Base.Sort.{sort_by, then_by, text_lt}
use mirage_chaff.Base.Int.{ℤ, pos}
use mirage_chaff.Managed.Types.{
  Entry, CatalogOverride, no_override, Source, ManagedConfig, Manager, or_else, review_candidate,
  review_approved, review_rejected, review_needs_test, review_disabled,
}

unfoldable pub nonempty : Text → Text → Text
nonempty v fallback = if text_eq v [] then fallback else v

abbrev pub conservative : Text
conservative = codes "conservative"

abbrev pub balanced : Text
balanced = codes "balanced"

abbrev pub aggressive : Text
aggressive = codes "aggressive"

unfoldable pub effective_preset : ManagedConfig → Text → Text
unfolding nonempty
effective_preset cfg override =
    if not (text_eq override []) then override else nonempty cfg.default_preset balanced

unfoldable pub valid_preset : Text → Bool
valid_preset p = text_eq p conservative || text_eq p balanced || text_eq p aggressive

-- The ranks of `confidenceAtLeast`.
unfoldable pub rank : Text → ℕ
rank v =
    if text_eq (to_lower v) (codes "low")
    then 1
    else if text_eq (to_lower v) (codes "medium") || text_eq (to_lower v) []
    then 2
    else if text_eq (to_lower v) (codes "high")
    then 3
    else 0

unfoldable pub confidence_at_least : Text → Text → Bool
confidence_at_least got min = leb (rank min) (rank got)

-- What the preset says where the administrator says nothing.
unfoldable pub preset_enables : Text → Entry → Bool
preset_enables preset e =
    if text_eq preset conservative
    then text_eq e.review_status review_approved && e.verified
    else if text_eq preset aggressive
    then not (text_eq e.review_status review_rejected)
      && not (text_eq e.review_status review_disabled)
    else text_eq e.review_status review_approved
      || text_eq e.review_status review_needs_test
      || (text_eq e.review_status review_candidate
          && confidence_at_least e.confidence (codes "medium"))

unfoldable pub rewrite_enabled : Entry → CatalogOverride → ManagedConfig → Bool
rewrite_enabled e ov cfg =
    or_else ov.rewrite_enabled (preset_enables (nonempty cfg.default_preset balanced) e)

-- `cfg.DefaultPreset = m.effectivePresetLocked()`
unfoldable pub effective_config : Manager → ManagedConfig
effective_config m = record m.cfg { default_preset = effective_preset m.cfg m.preset }

-- `m.overrides[id]`
abbrev pub override_of : Text → Dict Text CatalogOverride → CatalogOverride
override_of id overrides = or_else (lookup id overrides) no_override

unfoldable pub apply_override : Dict Text CatalogOverride → Entry → Entry
apply_override overrides e =
    let ov = override_of e.id overrides in
    record e {
      category = nonempty ov.category e.category;
      resource_type = nonempty ov.resource_type e.resource_type;
      risk = nonempty ov.risk e.risk;
      confidence = nonempty ov.confidence e.confidence;
      review_status = nonempty ov.review_status e.review_status;
      verified = or_else ov.verified e.verified;
      expected_catalog = nonempty ov.expected_catalog e.expected_catalog;
    }

pub record SourceRef : Type 0 where
  pub id : Text
  pub name : Text
  pub kind : Text
  pub url : Text
  pub priority : ℤ

unfoldable pub source_ref : Text × Source → Text × SourceRef
source_ref (id, src) = (
  id,
  record { id = id; name = src.name; kind = src.kind; url = src.url; priority = src.priority },
)

unfoldable pub source_ref_map : Dict Text Source → Dict Text SourceRef
unfolding source_ref
source_ref_map sources = map source_ref sources

unfoldable pub string_in_slice : Text → List Text → Bool
string_in_slice needle [] = false
string_in_slice needle (item ∷ items) = text_eq item needle || string_in_slice needle items

abbrev unknown_source : Text → SourceRef
unknown_source i = record { id = i; name = []; kind = []; url = []; priority = pos 0 }

-- The loop with the ids seen so far.
unfoldable pub refs_from : Dict Text SourceRef → List Text → List Text → List SourceRef
refs_from refs seen [] = []
refs_from refs seen (id ∷ ids) = elim (text_eq id [] || string_in_slice id seen) [
  | true ↦ refs_from refs seen ids
  | false ↦ or_else (lookup id refs) (unknown_source id) ∷ refs_from refs (id ∷ seen) ids
]

unfoldable pub source_refs_from_map : Dict Text SourceRef → List Text → List SourceRef
source_refs_from_map refs ids = refs_from refs [] ids

unfoldable pub source_priority : Dict Text Source → Text → ℤ
source_priority sources id = elim (lookup id sources) [ none ↦ pos 0 | some src ↦ src.priority ]

pub record CatalogRow : Type 0 where
  pub entry : Entry
  pub source_ids : List Text
  pub source_refs : List SourceRef
  pub source_priority : ℤ
  pub action : Text
  pub notes : Text
  pub rewrite_enabled : Bool
  pub rewrite_reason : Text
  pub last_changed_by : Text
  pub last_feed_included_at : ℕ

unfoldable pub catalog_row_from_entry : Manager → Entry → CatalogOverride → CatalogRow
catalog_row_from_entry m e ov = record {
  entry = e;
  source_ids = e.source_name ∷ [];
  source_refs = source_refs_from_map (source_ref_map m.sources) (e.source_name ∷ []);
  source_priority = source_priority m.sources e.source_name;
  action = ov.action;
  notes = ov.notes;
  rewrite_enabled = rewrite_enabled e ov (effective_config m);
  rewrite_reason = ov.rewrite_reason;
  last_changed_by = ov.last_changed_by;
  last_feed_included_at = or_else (lookup e.id m.feed_seen) 0;
}

unfoldable pub catalog_row : Manager → Entry → CatalogRow
catalog_row m e =
    catalog_row_from_entry m (apply_override m.overrides e) (override_of e.id m.overrides)

-- The order of `sortCatalogRows`.
unfoldable pub row_less : CatalogRow → CatalogRow → Bool
row_less a b = then_by a.entry.domain b.entry.domain (text_lt a.entry.id b.entry.id)

unfoldable pub sort_catalog_rows : List CatalogRow → List CatalogRow
sort_catalog_rows rows = sort_by row_less rows
