-- ===== src/Policy/Rules.antt =====
-- internal/policy/policy.go: rules, how they are compiled and how a request is matched.
pub mod Order
pub mod Refs
use mirage_chaff.Base.{
  ℕ, ◌≡◌, refl, List, [], ◌∷◌, ◌++◌, Bool, true, false, not, ◌&&◌, ◌||◌, Option, none, some, map,
  if◌then◌else◌, ◌⊎◌, inl, inr,
}
use mirage_chaff.Base.Text.{Text, codes, text_eq, to_lower, to_upper}
use mirage_chaff.Base.Int.{ℤ, ltz}
use mirage_chaff.Policy.Glob.{Atom, compile_glob, match_string}

abbrev pub action_stub : Text
action_stub = codes "stub"

abbrev pub action_forward_scrubbed : Text
action_forward_scrubbed = codes "forward-scrubbed"

abbrev pub action_forward_mimic : Text
action_forward_mimic = codes "forward-mimic"

abbrev pub action_forward_asis : Text
action_forward_asis = codes "forward-asis"

abbrev pub action_passthrough : Text
action_passthrough = codes "passthrough"

unfoldable pub one_of : Text → List Text → Bool
one_of a [] = false
one_of a (b ∷ bs) = text_eq a b || one_of a bs

abbrev pub actions : List Text
actions =
    action_stub ∷ action_forward_scrubbed ∷ action_forward_mimic ∷ action_forward_asis
    ∷ action_passthrough ∷ []

unfoldable pub valid_action : Text → Bool
valid_action a = one_of a actions

-- `Match` of the source.
pub record Condition : Type 0 where
  pub domain : Text
  pub path : Text
  pub method : List Text

-- A rule as the YAML document gives it.
pub record RuleSource : Type 0 where
  pub name : Text
  pub priority : ℤ
  pub condition : Condition
  pub action : Text
  pub catalog : Text

-- A compiled rule. `methods` is the key set of the map, none for the nil map.
pub record Rule : Type 0 where
  pub name : Text
  pub priority : ℤ
  pub condition : Condition
  pub action : Text
  pub catalog : Text
  pub domain_re : List Atom
  pub path_re : List Atom
  pub methods : Option (List Text)

pub record Decision : Type 0 where
  pub action : Text
  pub catalog : Text
  pub rule : Text
  pub matched : Bool

pub record Ruleset : Type 0 where
  pub rules : List Rule
  pub default : Decision

pub data RuleError : Type 0 where
  no_name : RuleError
  bad_action : Text → RuleError
  no_catalog : RuleError

pub data Result {ℓ κ} (E : Type κ) (A : Type ℓ) : Type (ℓ ⊔ κ) where
  fails : E → Result E A
  is : A → Result E A

unfoldable pub method_set : List Text → Option (List Text)
method_set [] = none
method_set (m ∷ ms) = some (map to_upper (m ∷ ms))

-- `compile` fills the compiled fields. Its two error returns for a bad pattern are never taken,
-- since every pattern that compileGlob writes is one.
unfoldable pub compile : RuleSource → Result RuleError Rule
compile r =
    if text_eq r.name []
    then fails no_name
    else if not (valid_action r.action)
    then fails (bad_action r.action)
    else if text_eq r.action action_stub && text_eq r.catalog []
    then fails no_catalog
    else is (record {
      name = r.name;
      priority = r.priority;
      condition = r.condition;
      action = r.action;
      catalog = r.catalog;
      domain_re = compile_glob r.condition.domain;
      path_re = compile_glob r.condition.path;
      methods = method_set r.condition.method;
    })

-- strings.TrimSuffix(domain, ".")
unfoldable pub trim_dot : Text → Text
trim_dot [] = []
trim_dot (c ∷ []) = if text_eq (c ∷ []) (codes ".") then [] else c ∷ []
trim_dot (c ∷ d ∷ s) = c ∷ trim_dot (d ∷ s)

unfoldable pub method_ok : Option (List Text) → Text → Bool
method_ok none method = true
method_ok (some set) method = one_of method set

-- The three tests of the loop of `Match`.
unfoldable pub accepts : Text → Text → Text → Rule → Bool
accepts domain path method r =
    method_ok r.methods method && (match_string r.domain_re domain && match_string r.path_re path)

unfoldable pub first_rule : (Rule → Bool) → List Rule → Option Rule
first_rule p [] = none
first_rule p (r ∷ rs) = if p r then some r else first_rule p rs

unfoldable pub decide_by : Option Rule → Decision → Decision
decide_by (some r) d = record {
  action = r.action;
  catalog = r.catalog;
  rule = r.name;
  matched = true;
}
decide_by none d = record d { matched = false }

-- The test of a request: the domain loses a trailing dot and its capitals, the method its small
-- letters.
unfoldable pub asks : Text → Text → Text → Rule → Bool
asks domain path method = accepts (to_lower (trim_dot domain)) path (to_upper method)

-- `Ruleset.Match`
unfoldable pub match_request : Ruleset → Text → Text → Text → Decision
match_request rs domain path method =
    decide_by (first_rule (asks domain path method) rs.rules) rs.default

unfoldable pub add_ref : Text → List Text → List Text
add_ref n out = if not (text_eq n []) && not (one_of n out) then out ++ (n ∷ []) else out

-- The loop of `CatalogRefs`.
unfoldable pub rule_refs : List Rule → List Text → List Text
rule_refs [] out = out
rule_refs (r ∷ rs) out =
    rule_refs rs (if text_eq r.action action_stub then add_ref r.catalog out else out)

unfoldable pub catalog_refs : Ruleset → List Text
catalog_refs rs =
    let out = rule_refs rs.rules [] in
    if text_eq rs.default.action action_stub then add_ref rs.default.catalog out else out

-- `sort.SliceStable` by priority: a stable sort of a list is one list, and this insertion sort
-- gives it. Equal priorities keep their order.
unfoldable pub insert_rule : Rule → List Rule → List Rule
insert_rule r [] = r ∷ []
insert_rule r (x ∷ xs) = if ltz x.priority r.priority then x ∷ insert_rule r xs else r ∷ (x ∷ xs)

unfoldable pub sort_rules : List Rule → List Rule
sort_rules [] = []
sort_rules (r ∷ rs) = insert_rule r (sort_rules rs)

pub Result-cases {ℓ κ} :
    {E : Type κ} {A : Type ℓ} (x : Result E A) → ((e : E) × (x ≡ fails e)) ⊎ ((a : A) × (x ≡ is a))
Result-cases (fails e) = inl (e, refl)
Result-cases (is a) = inr (a, refl)
