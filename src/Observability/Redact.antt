-- ===== src/Observability/Redact.antt =====
-- internal/observability/record.go: RedactURL, with `url.ParseQuery`, of which it uses the keys and
-- whether there is an error.
pub mod Query
use mirage_chaff.Base.{
  ℕ, ◌+◌, ◌-◌, ◌*◌, Bool, true, false, ◌&&◌, ◌||◌, List, [], ◌∷◌, ◌++◌, Option, none, some, leb,
  ◌==◌, if◌then◌else◌,
}
use mirage_chaff.Base.Text.{Text, codes, text_eq}
use mirage_chaff.Managed.Types.{or_else}
use mirage_chaff.Managed.Conflicts.{sorted_keys}

-- What is before the first such byte and what is behind it, none without one.
unfoldable pub cut_at : ℕ → Text → Text × Option Text
cut_at c [] = ([], none)
cut_at c (b ∷ bs) = let rest = cut_at c bs in if b == c then ([], some bs) else (b ∷ rest.0, rest.1)

-- A byte more at the front of the first part.
unfoldable pub in_first : ℕ → List Text → List Text
in_first b [] = (b ∷ []) ∷ []
in_first b (part ∷ parts) = (b ∷ part) ∷ parts

-- The parts between the separators.
unfoldable pub split_at : ℕ → Text → List Text
split_at c [] = [] ∷ []
split_at c (b ∷ bs) = elim (b == c) [
  | true ↦ [] ∷ split_at c bs
  | false ↦ in_first b (split_at c bs)
]

unfoldable pub hex_digit : ℕ → Option ℕ
hex_digit b =
    if leb b'0' b && leb b b'9'
    then some (b - b'0')
    else if leb b'a' b && leb b b'f'
    then some (b - b'a' + 10)
    else if leb b'A' b && leb b b'F'
    then some (b - b'A' + 10)
    else none

unfoldable pub has_byte : ℕ → Text → Bool
has_byte c [] = false
has_byte c (b ∷ bs) = (b == c) || has_byte c bs

-- A byte before the rest of the text.
unfoldable pub before : Option ℕ → Option Text → Option Text
before none rest = none
before (some b) none = none
before (some b) (some bs) = some (b ∷ bs)

unfoldable pub hex_pair : Option ℕ → Option ℕ → Option ℕ
hex_pair none low = none
hex_pair (some h) none = none
hex_pair (some h) (some l) = some (h * 16 + l)

-- `url.QueryUnescape`, none where an escape is malformed.
unfoldable pub query_unescape : Text → Option Text
query_unescape [] = some []
query_unescape (b ∷ []) = if b == b'%' then none else some ((if b == b'+' then b' ' else b) ∷ [])
query_unescape (b ∷ h ∷ []) = elim (b == b'%') [
  | true ↦ none
  | false ↦ before (some (if b == b'+' then b' ' else b)) (query_unescape (h ∷ []))
]
query_unescape (b ∷ h ∷ l ∷ bs) = elim (b == b'%') [
  | true ↦ before (hex_pair (hex_digit h) (hex_digit l)) (query_unescape bs)
  | false ↦ before (some (if b == b'+' then b' ' else b)) (query_unescape (h ∷ l ∷ bs))
]

-- The decoded key, where the value decodes as well.
unfoldable pub key_with : Option Text → Option Text → Option (Option Text)
key_with none value = none
key_with (some key) none = none
key_with (some key) (some value) = some (some key)

unfoldable pub decode_setting : Text × Option Text → Option (Option Text)
decode_setting (key, value) = key_with (query_unescape key) (query_unescape (or_else value []))

-- The key of one setting of the query: none for an error, and no key where there is no setting.
unfoldable pub setting_key : Text → Option (Option Text)
setting_key [] = some none
setting_key (b ∷ bs) =
    if has_byte b';' (b ∷ bs) then none else decode_setting (cut_at b'=' (b ∷ bs))

-- The keys of all settings, none where one has an error.
unfoldable pub setting_keys : List Text → Option (List Text)
setting_keys [] = some []
setting_keys (part ∷ parts) = elim (setting_key part) [
  | none ↦ none
  | some key ↦ elim (setting_keys parts) [
    | none ↦ none
    | some keys ↦ some (elim key [ none ↦ keys | some k ↦ k ∷ keys ])
  ]
]

-- The settings behind the question mark.
unfoldable pub redacted : List Text → Text
redacted [] = []
redacted (key ∷ []) = key ++ codes "=REDACTED"
redacted (key ∷ next ∷ keys) = key ++ (codes "=REDACTED" ++ (b'&' ∷ redacted (next ∷ keys)))

-- The keys, each once and in order.
unfoldable pub redact_query : Option (List Text) → Text
redact_query none = codes "REDACTED"
redact_query (some keys) = redacted (sorted_keys keys)

unfoldable pub redact_cut : Text → Text × Option Text → Text
redact_cut raw (path, none) = raw
redact_cut raw (path, some query) =
    path ++ (b'?' ∷ redact_query (setting_keys (split_at b'&' query)))

unfoldable pub redact_url : Text → Text
redact_url raw = redact_cut raw (cut_at b'?' raw)
