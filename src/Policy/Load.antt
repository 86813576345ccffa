-- ===== src/Policy/Load.antt =====
-- internal/policy/policy.go: Load and ValidateBytes. The YAML decoder is a parameter, and the
-- directory is what the operating system gave: its entries in order, each with its content or the
-- failure to read it.
pub mod Valid
pub mod Accepts
pub mod Decide
pub mod Validate
use mirage_chaff.Base.{
  ℕ, ◌≡◌, refl, List, [], ◌∷◌, ◌++◌, Bool, true, false, not, ◌&&◌, ◌||◌, Option, none, some, ◌==◌,
  if◌then◌else◌,
}
use mirage_chaff.Base.Text.{Text, codes, text_eq, to_lower}
use mirage_chaff.Policy.Rules.{
  RuleSource, Rule, RuleError, Decision, Ruleset, Result, fails, is, action_stub, one_of,
  valid_action, compile, sort_rules,
}

pub record Default : Type 0 where
  pub action : Text
  pub catalog : Text

pub record PolicyFile : Type 0 where
  pub rules : List RuleSource
  pub default : Option Default

pub record Entry : Type 0 where
  pub name : Text
  pub is_dir : Bool
  -- none when the file cannot be read.
  pub raw : Option Text

pub data Dir : Type 0 where
  missing : Dir
  unreadable : Dir
  entries : List Entry → Dir

pub data LoadError : Type 0 where
  read_dir : LoadError
  read_file : Text → LoadError
  bad_yaml : Text → LoadError
  bad_rule : Text → Text → RuleError → LoadError
  duplicate_name : Text → Text → LoadError
  bad_default : Text → Text → LoadError

-- `filepath.Ext` of a name without a slash: from the last dot on.
unfoldable pub last_dot : Text → Option Text
last_dot [] = none
last_dot (c ∷ s) = elim (last_dot s) [
  | some e ↦ some e
  | none ↦ if text_eq (c ∷ []) (codes ".") then some (c ∷ s) else none
]

unfoldable pub or_empty : Option Text → Text
or_empty none = []
or_empty (some e) = e

unfoldable pub is_yaml : Text → Bool
is_yaml name =
    let ext = to_lower (or_empty (last_dot name)) in
    text_eq ext (codes ".yaml") || text_eq ext (codes ".yml")

-- The state of the loop: the names met, the rules so far, the default.
pub record Loading : Type 0 where
  pub names : List Text
  pub rules : List Rule
  pub default : Decision

unfoldable pub load_rules : Text → List RuleSource → Loading → Result LoadError Loading
load_rules file [] st = is st
load_rules file (r ∷ rs) st = elim (compile r) [
  | fails e ↦ fails (bad_rule file r.name e)
  | is c ↦
      let rest =
        load_rules file rs
          (record st { names = c.name ∷ st.names; rules = st.rules ++ (c ∷ []) }) in
      if one_of c.name st.names then fails (duplicate_name file c.name) else rest
]

unfoldable pub load_default : Text → Option Default → Loading → Result LoadError Loading
load_default file none st = is st
load_default file (some d) st =
    if not (valid_action d.action)
    then fails (bad_default file d.action)
    else is (record st {
      default = record { action = d.action; catalog = d.catalog; rule = []; matched = false };
    })

abbrev pub safe_default : Decision
safe_default = record {
  action = action_stub;
  catalog = codes "beacon-204";
  rule = [];
  matched = false;
}

abbrev pub start : Loading
start = record { names = []; rules = []; default = safe_default }

-- One document after it is decoded.
unfoldable pub load_document : Text → PolicyFile → Loading → Result LoadError Loading
load_document file pf st = elim (load_rules file pf.rules st) [
  | fails e ↦ fails e
  | is st' ↦ load_default file pf.default st'
]

unfoldable pub check_rules : List RuleSource → Option (Text × RuleError)
check_rules [] = none
check_rules (r ∷ rs) = elim (compile r) [ fails e ↦ some (r.name, e) | is c ↦ check_rules rs ]

pub data ValidateError : Type 0 where
  undecoded : ValidateError
  invalid_rule : Text → RuleError → ValidateError
  invalid_default : Text → ValidateError

unfoldable pub check_default : Option Default → Option ValidateError
check_default none = none
check_default (some d) =
    if not (valid_action d.action) then some (invalid_default d.action) else none

unfoldable pub check_document : PolicyFile → Option ValidateError
check_document pf = elim (check_rules pf.rules) [
  | some (name, e) ↦ some (invalid_rule name e)
  | none ↦ check_default pf.default
]

module _ (parse : Text → Option PolicyFile) where
  unfoldable pub load_file : Text → Option Text → Loading → Result LoadError Loading
  load_file file none st = fails (read_file file)
  load_file file (some raw) st = elim (parse raw) [
    | none ↦ fails (bad_yaml file)
    | some pf ↦ load_document file pf st
  ]

  unfoldable pub load_entries : List Entry → Loading → Result LoadError Loading
  load_entries [] st = is st
  load_entries (e ∷ es) st = elim (e.is_dir || not (is_yaml e.name)) [
    | true ↦ load_entries es st
    | false ↦ elim (load_file e.name e.raw st) [
      | fails err ↦ fails err
      | is st' ↦ load_entries es st'
    ]
  ]

  unfoldable pub load : Dir → Result LoadError Ruleset
  load missing = is (record { rules = []; default = safe_default })
  load unreadable = fails read_dir
  load (entries es) = elim (load_entries es start) [
    | fails e ↦ fails e
    | is st ↦ is (record { rules = sort_rules st.rules; default = st.default })
  ]

  unfoldable pub validate_bytes : Text → Option ValidateError
  validate_bytes raw = elim (parse raw) [ none ↦ some undecoded | some pf ↦ check_document pf ]
