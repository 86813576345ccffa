-- ===== src/Server/Intercept.antt =====
-- internal/server/server.go: `handleIntercept` routes a decrypted request through the limiter, the
-- policy engine, the fallbacks, the stub-only gate and the circuit breaker to an answer. What the
-- network does is an argument; the limit on the request's body is left to net/http.

pub mod Upstream
mod Examples
use mirage_chaff.Base.{
  ℕ, Bool, true, false, not, ◌&&◌, ◌||◌, List, [], ◌∷◌, Option, none, some, if◌then◌else◌,
}
use mirage_chaff.Base.Text.{Text, codes, text_eq}
use mirage_chaff.Policy.Rules.{
  Decision, action_stub, action_forward_asis, action_forward_scrubbed, action_forward_mimic,
  action_passthrough, one_of,
}
use mirage_chaff.Policy.Engine.{Engine, decide}
use mirage_chaff.RuleCatalog.{CatalogEntry, lookup_entry}
use mirage_chaff.Server.Breaker.{Breaker, allow, record_success, record_failure}
use mirage_chaff.Server.Limits.{RateLimiter, allow_request}
use mirage_chaff.Server.Fallback.{
  UnknownProfileConfig, unknown_fallback, verified_js_stub_decision, stub_only_gate,
  safe_default_stub,
}

-- What stays the same from request to request: the mode, the unknown profile, the names of the
-- stub catalog, and the imported rules, none when there is no store.
pub record Settings : Type 0 where
  pub mode : Text
  pub unknown_profile : UnknownProfileConfig
  pub has_stub : Text → Bool
  pub rules : Option (List CatalogEntry)

pub record ServerState : Type 0 where
  pub engine : Engine
  pub breaker : Breaker
  pub limiter : Option RateLimiter

-- A request, its domain as `hostname` gives it.
pub record Incoming : Type 0 where
  pub domain : Text
  pub path : Text
  pub method : Text

-- How the network behaves for one request: whether forwarding to the origin fails, and whether the
-- mimic handler serves a decoy.
pub record Network : Type 0 where
  pub forward_fails : Bool
  pub mimic_serves : Bool

pub data Reply : Type 0 where
  rate_limited : Reply
  stub : Text → Reply
  asis : Reply
  scrubbed : Reply
  mimicked : Reply

-- The reply, whether the origin was contacted, and `rw.failed`.
pub record Served : Type 0 where
  pub reply : Reply
  pub contacted : Bool
  pub failed : Bool

abbrev pub entry_for : Settings → Incoming → Option CatalogEntry
entry_for c r = elim c.rules [ none ↦ none | some es ↦ lookup_entry r.domain r.path es ]

-- The decision for a request that no rule matched.
unfoldable pub fall_back : Settings → Incoming → Decision → Decision
fall_back c r d = elim (verified_js_stub_decision c.has_stub (entry_for c r) r.domain) [
  | some fd ↦ fd
  | none ↦ elim (unknown_fallback c.unknown_profile (entry_for c r) r.path) [
    | some fd ↦ fd
    | none ↦ d
  ]
]

unfoldable pub gated : Settings → Decision → Decision
gated c d = elim (stub_only_gate c.mode d) [ none ↦ d | some g ↦ g ]

unfoldable pub final_decision : Settings → Incoming → Decision → Decision
final_decision c r d = gated c (if d.matched then d else fall_back c r d)

-- `contactsUpstream`: the actions that the breaker guards.
unfoldable pub contacts_upstream : Decision → Bool
contacts_upstream d =
    one_of d.action (action_forward_asis ∷ action_forward_scrubbed ∷ action_forward_mimic ∷ [])

-- A forward that fails ends in `forwardFailSafe`, which serves the safe stub.
unfoldable pub forward : Reply → Network → Served
forward reply w =
    if w.forward_fails
    then record { reply = stub safe_default_stub; contacted = true; failed = true }
    else record { reply = reply; contacted = true; failed = false }

abbrev pub serve_stub : Text → Served
serve_stub name = record { reply = stub name; contacted = false; failed = false }

-- The mimic handler asks the origin for the shape of what it imitates, unless it has it from an
-- earlier request; here it counts as a contact in both cases.
unfoldable pub mimic : Network → Served
mimic w =
    if w.mimic_serves
    then record { reply = mimicked; contacted = true; failed = false }
    else record { reply = stub safe_default_stub; contacted = true; failed = false }

-- The switch over the action.
unfoldable pub serve_action : Decision → Network → Served
serve_action d w =
    if text_eq d.action action_stub
    then serve_stub d.catalog
    else if text_eq d.action action_forward_asis
    then forward asis w
    else if text_eq d.action action_forward_scrubbed
    then forward scrubbed w
    else if text_eq d.action action_passthrough
    then forward asis w
    else if text_eq d.action action_forward_mimic
    then mimic w
    else serve_stub safe_default_stub

unfoldable pub feed_breaker : Breaker → Text → Served → ℕ → Breaker
feed_breaker b domain s now =
    if s.failed then record_failure b domain now else record_success b domain

-- Behind the decision: the breaker, the switch, and the breaker again.
unfoldable pub act : Breaker → Decision → Incoming → Network → ℕ → Served × Breaker
act b d r w now =
    if contacts_upstream d
    then (let (ok, b') = allow b r.domain now in
        if ok
        then (serve_action d w, feed_breaker b' r.domain (serve_action d w) now)
        else (serve_stub safe_default_stub, b'))
    else (serve_action d w, b)

unfoldable pub handle_intercept :
    Settings → ServerState → Incoming → Network → ℕ → Served × ServerState
handle_intercept c s r w now =
    let (admitted, l) = allow_request s.limiter now in
    if not admitted
    then (
      record { reply = rate_limited; contacted = false; failed = false },
      record s { limiter = l },
    )
    else (let (d, e) = decide s.engine r.domain r.path r.method now in
        let (served, b) = act s.breaker (final_decision c r d) r w now in
        (served, record { engine = e; breaker = b; limiter = l }))
