-- ===== src/Policy/Load/Decide.antt =====
-- What a loaded ruleset answers to a request.
use mirage_chaff.Base.{
  ◌≡◌, ◌≢◌, refl, sym, subst, ap, List, [], ◌∷◌, true, false, Option, All, Bool-cases, Option-cases,
  inl, inr, arith, ◌⊎◌,
}
use mirage_chaff.Base.Text.{Text, text_eq, text_eq_iff}
use mirage_chaff.Policy.Rules.{
  RuleSource, Rule, Decision, Ruleset, is, one_of, valid_action, Result-cases, action_stub,
  sort_rules, first_rule, asks, match_request, decide_by, catalog_refs,
}
use mirage_chaff.Policy.Rules.Order.{Chosen, first_rule-Chosen, first_rule-All, All-insert_rule}
use mirage_chaff.Policy.Rules.Refs.{catalog_refs-Refers, catalog_refs-default, Refers}
use mirage_chaff.Policy.Load.{
  PolicyFile, Dir, missing, unreadable, entries, load_entries, load, start,
}
use mirage_chaff.Policy.Load.Valid.{
  Compiles, nothing, one_more, Distinct, Loaded, file_rules, load_entries-Loaded, is-injective,
  fails_is,
}
use mirage_chaff.Policy.Load.Accepts.{compile-Compiled}

-- What every decision keeps to: its action is one of the five, and a stub's catalog name is among
-- the names that are checked before the ruleset is taken into use; only the default's may be empty.
pub record Safe (rs : Ruleset) (d : Decision) : Type 0 where
  pub action_ok : valid_action d.action ≡ true
  pub stub_known :
      text_eq d.action action_stub ≡ true
      → ((d.matched ≡ false) × (d.catalog ≡ [])) ⊎ (one_of d.catalog (catalog_refs rs) ≡ true)

-- What `compile` demands of the action and the catalog name.
record Sound (r : Rule) : Type 0 where
  action_ok : valid_action r.action ≡ true
  catalog_ok : text_eq r.action action_stub ≡ true → r.catalog ≢ []

Compiles-Sound : {ss : List RuleSource} {rs : List Rule} → Compiles ss rs → All Sound rs
Compiles-Sound nothing = tt
Compiles-Sound (one_more {s} {ss} {r} e c) =
    let k = compile-Compiled s r e in
    (record { action_ok = k.action_ok; catalog_ok = k.catalog_ok }, Compiles-Sound c)

All-sort_rules : (P : Rule → Type 0) (rs : List Rule) → All P rs → All P (sort_rules rs)
unfolding sort_rules
All-sort_rules P [] a = tt
All-sort_rules P (r ∷ rs) a = All-insert_rule P r (sort_rules rs) a.0 (All-sort_rules P rs a.1)

module _ (parse : Text → Option PolicyFile) where
  -- The rules of a directory in file order.
  abbrev pub dir_rules : Dir → List RuleSource
  dir_rules missing = []
  dir_rules unreadable = []
  dir_rules (entries es) = file_rules parse es

  -- A ruleset that holds a directory's rules, compiled, by priority.
  pub record Ready (dir : Dir) (rs : Ruleset) : Type 0 where
    pub compiled : List Rule
    pub compiles : Compiles (dir_rules dir) compiled
    pub distinct : Distinct compiled
    pub sorted : rs.rules ≡ sort_rules compiled
    pub default_ok : valid_action rs.default.action ≡ true

  start-Loaded : Loaded [] start
  unfolding valid_action one_of text_eq
  start-Loaded = record { compiled = nothing; named = tt; distinct = tt; default_ok = refl }

  load-Ready : (dir : Dir) (rs : Ruleset) → load parse dir ≡ is rs → Ready dir rs
  unfolding load sort_rules
  load-Ready missing rs e = subst (Ready missing) (is-injective e) (record {
    compiled = [];
    compiles = nothing;
    distinct = tt;
    sorted = refl;
    default_ok = start-Loaded.default_ok;
  })
  load-Ready unreadable rs e = absurd (fails_is e)
  load-Ready (entries es) rs e = elim (Result-cases (load_entries parse es start)) [
    | inl (x, f) ↦ absurd (fails_is (rw (load, f) at e))
    | inr (st, f) ↦
        let l = load_entries-Loaded parse es [] start st f start-Loaded in
        subst (Ready (entries es)) (is-injective (rw (load, f) at e)) (record {
          compiled = st.rules;
          compiles = l.compiled;
          distinct = l.distinct;
          sorted = refl;
          default_ok = l.default_ok;
        })
  ]

  -- The answer to a request, by the rules in file order.
  pub record Answer (dir : Dir) (rs : Ruleset) (domain path method : Text) : Type 0 where
    pub compiled : List Rule
    pub compiles : Compiles (dir_rules dir) compiled
    pub distinct : Distinct compiled
    pub choice : Option Rule
    pub chosen : Chosen (asks domain path method) compiled choice
    pub decision : match_request rs domain path method ≡ decide_by choice rs.default

  -- A ruleset that was loaded from a directory holds every rule of its documents, compiled, with no
  -- name twice, and answers a request by the accepting rule of the lowest priority number, the
  -- first of them in file order, or by the default when no rule accepts.
  pub loaded-Answer :
      (dir : Dir) (rs : Ruleset) (domain path method : Text)
      → load parse dir ≡ is rs
      → Answer dir rs domain path method
  unfolding match_request
  loaded-Answer dir rs domain path method e =
      let ready = load-Ready dir rs e in
      record {
        compiled = ready.compiled;
        compiles = ready.compiles;
        distinct = ready.distinct;
        choice = first_rule (asks domain path method) (sort_rules ready.compiled);
        chosen = first_rule-Chosen (asks domain path method) ready.compiled;
        decision =
            ap (λ l. decide_by (first_rule (asks domain path method) l) rs.default) ready.sorted;
      }

  -- Every decision of a loaded ruleset has one of the five actions, and a stub decision names a
  -- catalog entry of `CatalogRefs`, unless it is the default with an empty name.
  pub decision-Safe :
      (dir : Dir) (rs : Ruleset) (domain path method : Text)
      → load parse dir ≡ is rs
      → Safe rs (match_request rs domain path method)
  unfolding match_request decide_by
  decision-Safe dir rs domain path method e =
      let ready = load-Ready dir rs e in
      let sound =
        subst (All Sound) (sym ready.sorted)
          (All-sort_rules Sound ready.compiled (Compiles-Sound ready.compiles)) in
      let p = asks domain path method in
      elim (Option-cases (first_rule p rs.rules)) [
        | inl f ↦ rw f (record {
          action_ok = ready.default_ok;
          stub_known = λ h. elim (Bool-cases (text_eq rs.default.catalog [])) [
            | inl y ↦ inl (refl, (text_eq_iff rs.default.catalog []).0 y)
            | inr n ↦ inr (
                catalog_refs-default rs h
                  (λ k. ground (arith, n, (text_eq_iff rs.default.catalog []).1 k)))
          ];
        })
        | inr (r, f) ↦
            let good = first_rule-All Sound p rs.rules r f sound in
            let known =
              first_rule-All (Refers (catalog_refs rs)) p rs.rules r f (catalog_refs-Refers rs) in
            rw f (record {
              action_ok = good.action_ok;
              stub_known = λ h. inr (known h (good.catalog_ok h));
            })
      ]
