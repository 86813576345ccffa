-- ===== src/Observability/Modes.antt =====
-- internal/observability/record.go: what each mode keeps of a record. The reading of the clock is an
-- argument.
use mirage_chaff.Base.{
  ℕ, Bool, true, false, ◌&&◌, ◌||◌, List, [], ◌∷◌, none, some, leb, if◌then◌else◌,
}
use mirage_chaff.Base.Text.{Text, codes, text_eq}
use mirage_chaff.Base.Strings.{has_suffix}
use mirage_chaff.Base.Dict.{text_key, nat_key}
use mirage_chaff.Observability.Records.{Record, DebugScope, metric_key, Recorder}
use mirage_chaff.Observability.Redact.{redact_url}

abbrev pub mode_off : Text
mode_off = codes "off"

abbrev pub mode_stats : Text
mode_stats = codes "stats"

abbrev pub mode_redacted : Text
mode_redacted = codes "redacted"

-- Whether one scope asks for the full detail of the record.
unfoldable pub in_scope : ℕ → Record → DebugScope → Bool
in_scope now rec s =
    elim s.expires [ none ↦ true | some end ↦ leb now end ]
    && (text_eq s.domain []
        || text_eq rec.domain s.domain
        || has_suffix rec.domain (b'.' ∷ s.domain))
    && (text_eq s.client [] || text_eq s.client rec.client)

unfoldable pub debug_match : ℕ → Record → List DebugScope → Bool
debug_match now rec [] = false
debug_match now rec (s ∷ scopes) = in_scope now rec s || debug_match now rec scopes

-- `applyPolicyLocked`
unfoldable pub apply_policy : ℕ → Recorder → Record → Record
apply_policy now r rec =
    let named = record rec { redaction_mode = r.mode } in
    if text_eq r.mode mode_off
    then record named { path = [] }
    else if text_eq r.mode mode_stats
    then record named { path = []; method = [] }
    else if text_eq r.mode (codes "full")
    then named
    else if text_eq r.mode (codes "debug")
    then if debug_match now named r.debug_scopes
      then named
      else record named { path = redact_url rec.path }
    else if r.redact
    then record named { path = redact_url rec.path }
    else named
