-- ===== src/Policy/Load/Accepts.antt =====
-- Which requests a compiled rule accepts.
use mirage_chaff.Base.{
  ◌≡◌, ◌≢◌, refl, subst, List, [], ◌∷◌, true, ◌&&◌, Bool-cases, inl, inr, arith, ◌⊎◌, ◌↔◌, map,
}
use mirage_chaff.Base.Text.{Text, text_eq, text_eq_iff, to_lower, to_upper}
use mirage_chaff.Policy.Glob.{GlobMatches, compile_glob}
use mirage_chaff.Policy.Glob.Matching.{match_glob_iff}
use mirage_chaff.Policy.Rules.{
  Condition, RuleSource, Rule, is, one_of, valid_action, compile, action_stub, asks, accepts,
  trim_dot, method_ok, method_set,
}
use mirage_chaff.Policy.Load.Valid.{is-injective, fails_is}

-- The request's method is one of those listed, in any case; no list allows every method.
abbrev pub IsOneOf : Text → List Text → Type 0
IsOneOf m [] = ⊥
IsOneOf m (x ∷ xs) = (m ≡ x) ⊎ IsOneOf m xs

abbrev pub MethodFits : List Text → Text → Type 0
MethodFits [] method = Unit {0}
MethodFits (m ∷ ms) method = IsOneOf (to_upper method) (map to_upper (m ∷ ms))

pub one_of_iff : (m : Text) (xs : List Text) → (one_of m xs ≡ true) ↔ IsOneOf m xs
unfolding one_of
one_of_iff m [] = (λ h. absurd cc, λ h. absurd h)
one_of_iff m (x ∷ xs) = (
  λ h. elim (Bool-cases (text_eq m x)) [
    | inl y ↦ inl ((text_eq_iff m x).0 y)
    | inr n ↦ inr ((one_of_iff m xs).0 (ground (arith, h, n)))
  ],
  λ h. elim h [
    | inl e ↦ ground (arith, (text_eq_iff m x).1 e)
    | inr k ↦ ground (arith, (one_of_iff m xs).1 k)
  ],
)

method_ok_iff :
    (ms : List Text) (method : Text)
    → (method_ok (method_set ms) (to_upper method) ≡ true) ↔ MethodFits ms method
unfolding method_ok method_set
method_ok_iff [] method = (λ h. tt, λ h. refl)
method_ok_iff (m ∷ ms) method = one_of_iff (to_upper method) (map to_upper (m ∷ ms))

-- What a rule's conditions say of a request: the domain without a trailing dot and in small
-- letters, the path and the method.
pub record RuleApplies (c : Condition) (domain path method : Text) : Type 0 where
  pub domain_fits : GlobMatches c.domain (to_lower (trim_dot domain))
  pub path_fits : GlobMatches c.path path
  pub method_fits : MethodFits c.method method

-- What compiling gives, when it gives a rule.
pub record Compiled (s : RuleSource) (r : Rule) : Type 0 where
  pub condition : s.condition ≡ r.condition
  pub domain_re : r.domain_re ≡ compile_glob s.condition.domain
  pub path_re : r.path_re ≡ compile_glob s.condition.path
  pub methods : r.methods ≡ method_set s.condition.method
  pub action_ok : valid_action r.action ≡ true
  pub catalog_ok : text_eq r.action action_stub ≡ true → r.catalog ≢ []
  pub name_ok : r.name ≢ []

pub compile-Compiled : (s : RuleSource) (r : Rule) → compile s ≡ is r → Compiled s r
unfolding compile
compile-Compiled s r e = elim (Bool-cases (text_eq s.name [])) [
  | inl y ↦ absurd (fails_is (rw (compile, y) at e))
  | inr n ↦ elim (Bool-cases (valid_action s.action)) [
    | inr v ↦ absurd (fails_is (rw (compile, n, v) at e))
    | inl v ↦ elim (Bool-cases (text_eq s.action action_stub && text_eq s.catalog [])) [
      | inl c ↦ absurd (fails_is (rw (compile, n, v, c) at e))
      | inr c ↦ subst (Compiled s) (is-injective (rw (compile, n, v, c) at e)) (record {
        condition = refl;
        domain_re = refl;
        path_re = refl;
        methods = refl;
        action_ok = v;
        catalog_ok = λ h k. ground (arith, c, h, (text_eq_iff s.catalog []).1 k);
        name_ok = λ k. ground (arith, n, (text_eq_iff s.name []).1 k);
      })
    ]
  ]
]

-- A compiled rule accepts exactly the requests that its conditions describe.
pub asks_iff :
    (s : RuleSource) (r : Rule) (domain path method : Text)
    → compile s ≡ is r
    → (asks domain path method r ≡ true) ↔ RuleApplies s.condition domain path method
unfolding asks accepts
asks_iff s r domain path method e =
    let c = compile-Compiled s r e in
    let d = to_lower (trim_dot domain) in
    let (m1, m2) = method_ok_iff s.condition.method method in
    let (d1, d2) = match_glob_iff s.condition.domain d in
    let (p1, p2) = match_glob_iff s.condition.path path in
    rw (c.methods, c.domain_re, c.path_re)
      (
        λ h. record {
          domain_fits = d1 (ground (arith, h));
          path_fits = p1 (ground (arith, h));
          method_fits = m1 (ground (arith, h));
        },
        λ a. ground (arith, d2 a.domain_fits, p2 a.path_fits, m2 a.method_fits),
      )
