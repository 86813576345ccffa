-- ===== src/Managed/Conflicts/Flagged.antt =====
-- The key of every conflict is among the keys that the feed looks at.
use mirage_chaff.Base.{
  ◌≡◌, refl, sym, ap₂, subst, true, false, ◌&&◌, List, [], ◌∷◌, none, some, length, ltb, Bool-cases,
  Option-cases, inl, inr, arith,
}
use mirage_chaff.Base.Text.{Text, text_eq, text_eq_iff}
use mirage_chaff.Base.Dict.{Dict, lookup, text_key}
use mirage_chaff.Base.Members.{In, In-sort_by}
use mirage_chaff.Managed.Types.{Entry, CatalogOverride, Source, ManagedConfig, or_else}
use mirage_chaff.Managed.Rows.{CatalogRow, string_in_slice}
use mirage_chaff.Managed.Groups.{
  domain_path_key, entry_key, conflict_row, group_rows, conflict_participant, participants,
  action_reasons,
}
use mirage_chaff.Managed.Conflicts.{
  Conflict, new_conflict, conflict_in, conflicts_in, conflict_less, build_conflicts, conflict_keys,
  reasons_of, is_nil,
}
use mirage_chaff.Managed.Conflicts.Grouped.{domain_path_key-split, In-group_rows}
use mirage_chaff.Managed.Conflicts.Agree.{Agree, conflict_in-Agree}

In-conflicts_in :
    (hash : Text → Text) (k : Text) (rows : List CatalogRow) (c : Conflict)
    (d : Dict Text (List CatalogRow))
    → lookup k d ≡ some rows
    → conflict_in hash k rows ≡ some c
    → In c (conflicts_in hash d)
unfolding conflicts_in lookup
In-conflicts_in hash k rows c [] h q = absurd cc
In-conflicts_in hash k rows c ((j, rs) ∷ d) h q = elim (Bool-cases (text_eq j k)) [
  | inl e ↦
      let found = rw e at h in
      let same_rows : rs ≡ rows = cc in
      let same_key = (text_eq_iff j k).0 e in rw (same_rows, same_key, q, conflicts_in) (inl refl)
  | inr e ↦
      let rest = In-conflicts_in hash k rows c d (rw e at h) q in
      elim (Option-cases (conflict_in hash j rs)) [
        | inl o ↦ rw (o, conflicts_in) rest
        | inr (v, o) ↦ rw (o, conflicts_in) (inr rest)
      ]
]

conflict_keys-In :
    (c : Conflict) (cs : List Conflict)
    → In c cs
    → string_in_slice (domain_path_key c.domain c.path) (conflict_keys cs) ≡ true
unfolding conflict_keys string_in_slice
conflict_keys-In c [] h = absurd h.1
conflict_keys-In c (x ∷ cs) (inl e) =
    subst (λ y. string_in_slice (domain_path_key c.domain c.path) (conflict_keys (y ∷ cs)) ≡ true)
      (sym e)
      (rw
        ((text_eq_iff (domain_path_key c.domain c.path) (domain_path_key c.domain c.path)).1 refl))
conflict_keys-In c (x ∷ cs) (inr h) = ground (arith, conflict_keys-In c cs h)

conflict_in-key :
    (hash : Text → Text) (domain path : Text) (rows : List CatalogRow) (c : Conflict)
    → conflict_in hash (domain_path_key domain path) rows ≡ some c
    → domain_path_key c.domain c.path ≡ domain_path_key domain path
unfolding conflict_in new_conflict
conflict_in-key hash domain path rows c h =
    let k = domain_path_key domain path in
    let parts = participants rows in
    let reasons = reasons_of parts (action_reasons rows) in
    elim (Bool-cases (ltb (length parts) 2 && is_nil (action_reasons rows))) [
      | inl e ↦ absurd (cc (rw e at h))
      | inr e ↦
          let h1 = rw e at h in
          elim (Bool-cases (is_nil reasons)) [
            | inl q ↦ absurd (cc (rw q at h1))
            | inr q ↦
                let same : new_conflict hash k rows parts reasons ≡ c = cc (rw q at h1) in
                subst (λ x. domain_path_key x.domain x.path ≡ k) same
                  (domain_path_key-split domain path)
          ]
    ]

module _ (hash : Text → Text) (o : Dict Text CatalogOverride) (cfg : ManagedConfig)
    (srcs : Dict Text Source) (es : List Entry) where
  abbrev groups : Dict Text (List CatalogRow)
  groups = group_rows o cfg srcs es []

  unflagged :
      (e : Entry) (rows : List CatalogRow)
      → string_in_slice (entry_key e) (conflict_keys (build_conflicts hash es o cfg srcs)) ≡ false
      → lookup (entry_key e) groups ≡ some rows
      → conflict_in hash (entry_key e) rows ≡ none
  unfolding build_conflicts entry_key
  unflagged e rows h there = elim (Option-cases (conflict_in hash (entry_key e) rows)) [
    | inl n ↦ n
    | inr (c, q) ↦
        let among =
          In-sort_by conflict_less c (conflicts_in hash groups)
            (In-conflicts_in hash (entry_key e) rows c groups there q) in
        let key = conflict_in-key hash e.domain e.path rows c q in
        let flagged = conflict_keys-In c (build_conflicts hash es o cfg srcs) among in
        absurd (cc (rw key at flagged))
  ]

  -- Two entries of one domain and path agree in category and review status unless their key is that
  -- of a conflict.
  pub unflagged-Agree :
      (e e' : Entry)
      → string_in_slice (entry_key e) (conflict_keys (build_conflicts hash es o cfg srcs)) ≡ false
      → text_eq e.domain [] ≡ false
      → In e es
      → In e' es
      → e'.domain ≡ e.domain
      → e'.path ≡ e.path
      → conflict_participant (conflict_row o cfg srcs e) ≡ true
      → conflict_participant (conflict_row o cfg srcs e') ≡ true
      → Agree (conflict_row o cfg srcs e) (conflict_row o cfg srcs e')
  unfolding entry_key
  unflagged-Agree e e' h nonempty i i' d p q q' =
      let r = conflict_row o cfg srcs e in
      let r' = conflict_row o cfg srcs e' in
      let same_key : entry_key e' ≡ entry_key e = ap₂ domain_path_key d p in
      let nonempty' = subst (λ x. text_eq x [] ≡ false) (sym d) nonempty in
      let mine = In-group_rows o cfg srcs e es [] nonempty i in
      let other =
        subst (λ k. In r' (or_else (lookup k groups) [])) same_key
          (In-group_rows o cfg srcs e' es [] nonempty' i') in
      elim (Option-cases (lookup (entry_key e) groups)) [
        | inl n ↦ let empty = subst (λ l. In r (or_else l [])) n mine in absurd (empty.1)
        | inr (rows, there) ↦
            conflict_in-Agree hash (entry_key e) rows r r' (unflagged e rows h there)
              (subst (λ l. In r (or_else l [])) there mine)
              (subst (λ l. In r' (or_else l [])) there other) q q'
      ]
