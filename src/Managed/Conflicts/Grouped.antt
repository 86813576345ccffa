-- ===== src/Managed/Conflicts/Grouped.antt =====
-- Every entry stands in the group of its domain and path.
use mirage_chaff.Base.{
  ◌≡◌, refl, sym, ap, subst, false, List, [], ◌∷◌, ◌++◌, Bool-cases, inl, inr, ==_iff, ◌==◌,
}
use mirage_chaff.Base.Text.{Text, text_eq, text_eq_iff}
use mirage_chaff.Base.Dict.{Dict, lookup, insert, lookup-insert, lookup-insert_self, text_key}
use mirage_chaff.Base.Members.{In, In-append_left, In-append_right}
use mirage_chaff.Managed.Types.{Entry, CatalogOverride, Source, ManagedConfig, or_else}
use mirage_chaff.Managed.Rows.{CatalogRow}
use mirage_chaff.Managed.Groups.{
  domain_path_key, entry_key, split_entry_key, conflict_row, group_rows,
}

-- Joining the parts of a key gives the key back, zero bytes in the domain or the path or not.
pub domain_path_key-split :
    (domain path : Text)
    → (let split = split_entry_key (domain_path_key domain path) in
        domain_path_key split.0 split.1 ≡ domain_path_key domain path)
unfolding domain_path_key split_entry_key
domain_path_key-split [] path = refl
domain_path_key-split (c ∷ domain) path = elim (Bool-cases (c == 0)) [
  | inl e ↦ rw (e, split_entry_key, (==_iff c 0).0 e)
  | inr e ↦ rw (e, split_entry_key) (ap (◌∷◌ c) (domain_path_key-split domain path))
]

module _ (o : Dict Text CatalogOverride) (cfg : ManagedConfig) (srcs : Dict Text Source) where
  -- The rows of a key.
  abbrev pub rows_at : Text → Dict Text (List CatalogRow) → List CatalogRow
  rows_at k d = or_else (lookup k d) []

  rows_at-insert :
      (k j : Text) (r x : CatalogRow) (d : Dict Text (List CatalogRow))
      → In r (rows_at k d)
      → In r (rows_at k (insert j (rows_at j d ++ x ∷ []) d))
  rows_at-insert k j r x d h = elim (Bool-cases (text_eq j k)) [
    | inl e ↦
        let same = sym ((text_eq_iff j k).0 e) in
        rw (lookup-insert j k (rows_at j d ++ x ∷ []) d, e)
          (In-append_left r (rows_at j d) (x ∷ []) (subst (λ i. In r (rows_at i d)) same h))
    | inr e ↦ rw (lookup-insert j k (rows_at j d ++ x ∷ []) d, e) h
  ]

  group_rows-keeps :
      (k : Text) (r : CatalogRow) (es : List Entry) (d : Dict Text (List CatalogRow))
      → In r (rows_at k d)
      → In r (rows_at k (group_rows o cfg srcs es d))
  unfolding group_rows
  group_rows-keeps k r [] d h = h
  group_rows-keeps k r (e ∷ es) d h = elim (Bool-cases (text_eq e.domain [])) [
    | inl q ↦ rw (q, group_rows) (group_rows-keeps k r es d h)
    | inr q ↦
        let row = conflict_row o cfg srcs e in
        rw (q, group_rows)
          (group_rows-keeps k r es (insert (entry_key e) (rows_at (entry_key e) d ++ row ∷ []) d)
            (rows_at-insert k (entry_key e) r row d h))
  ]

  pub In-group_rows :
      (e : Entry) (es : List Entry) (d : Dict Text (List CatalogRow))
      → text_eq e.domain [] ≡ false
      → In e es
      → In (conflict_row o cfg srcs e) (rows_at (entry_key e) (group_rows o cfg srcs es d))
  unfolding group_rows
  In-group_rows e [] d q h = absurd h.1
  In-group_rows e (x ∷ es) d q (inl same) =
      let row = conflict_row o cfg srcs e in
      let d' = insert (entry_key e) (rows_at (entry_key e) d ++ row ∷ []) d in
      subst (λ y. In row (rows_at (entry_key e) (group_rows o cfg srcs (y ∷ es) d))) (sym same)
        (rw (q, group_rows)
          (group_rows-keeps (entry_key e) row es d' (
            rw (lookup-insert_self (entry_key e) (rows_at (entry_key e) d ++ row ∷ []) d)
              (In-append_right row (rows_at (entry_key e) d) (row ∷ []) (inl refl)))))
  In-group_rows e (x ∷ es) d q (inr h) = elim (Bool-cases (text_eq x.domain [])) [
    | inl p ↦ rw (p, group_rows) (In-group_rows e es d q h)
    | inr p ↦
        rw (p, group_rows)
          (In-group_rows e es
            (insert (entry_key x) (rows_at (entry_key x) d ++ conflict_row o cfg srcs x ∷ []) d) q
            h)
  ]
