-- ===== src/Server/Intercept/Upstream.antt =====
-- When an origin is contacted.
use mirage_chaff.Base.{
  ℕ, ◌≡◌, ◌⊎◌, inl, inr, refl, sym, ◌∙◌, ap, Bool, true, false, if◌then◌else◌, Bool-cases, arith,
}
use mirage_chaff.Base.Text.{codes, text_eq, text_eq_iff}
use mirage_chaff.Policy.Rules.{
  Decision, action_stub, action_forward_asis, action_forward_scrubbed, action_forward_mimic,
  action_passthrough, one_of,
}
use mirage_chaff.Policy.Engine.{decide}
use mirage_chaff.Server.Breaker.{Breaker, allow}
use mirage_chaff.Server.Limits.{allow_request}
use mirage_chaff.Server.Fallback.{stub_only_gate}
use mirage_chaff.Server.Intercept.{
  Settings, ServerState, Incoming, Network, Served, stub, rate_limited, final_decision, gated,
  fall_back, contacts_upstream, serve_action, serve_stub, act, handle_intercept,
}

stub_self : text_eq action_stub action_stub ≡ true
stub_self = (text_eq_iff action_stub action_stub).1 refl

-- Under the mode, every decision is a stub.
gated-stub :
    (c : Settings) (d : Decision)
    → c.mode ≡ codes "stub-only"
    → text_eq (gated c d).action action_stub ≡ true
unfolding gated stub_only_gate
gated-stub c d m =
    let mode : text_eq c.mode (codes "stub-only") ≡ true =
      (text_eq_iff c.mode (codes "stub-only")).1 m in
    elim (Bool-cases (text_eq d.action action_stub)) [
      | inl y ↦ rw (gated, stub_only_gate, mode, y) y
      | inr n ↦ rw (gated, stub_only_gate, mode, n) stub_self
    ]

-- A stub is served from the catalog, past the breaker.
act-stub :
    (b : Breaker) (d : Decision) (r : Incoming) (w : Network) (now : ℕ)
    → text_eq d.action action_stub ≡ true
    → act b d r w now ≡ (serve_stub d.catalog, b)
unfolding act contacts_upstream serve_action one_of text_eq
act-stub b d r w now h =
    let same : d.action ≡ action_stub = (text_eq_iff d.action action_stub).0 h in
    rw (act, contacts_upstream, serve_action, same) refl

-- The decision that the request is handled by.
abbrev pub decision_for : Settings → ServerState → Incoming → ℕ → Decision
decision_for c s r now = final_decision c r (decide s.engine r.domain r.path r.method now).0

-- A request is refused by the limiter, or acted on by its decision.
handle-cases :
    (c : Settings) (s : ServerState) (r : Incoming) (w : Network) (now : ℕ)
    → ((handle_intercept c s r w now).0.reply ≡ rate_limited)
        × ((handle_intercept c s r w now).0.contacted ≡ false)
        × ((handle_intercept c s r w now).1.breaker ≡ s.breaker)
      ⊎ (((handle_intercept c s r w now).0 ≡ (act s.breaker (decision_for c s r now) r w now).0)
          × ((handle_intercept c s r w now).1.breaker
              ≡ (act s.breaker (decision_for c s r now) r w now).1))
unfolding handle_intercept
handle-cases c s r w now = elim (Bool-cases (allow_request s.limiter now).0) [
  | inr n ↦ rw (handle_intercept, n) (inl (refl, refl, refl))
  | inl y ↦ rw (handle_intercept, y) (inr (refl, refl))
]

-- In stub-only mode no request that reaches the handler makes it contact an origin, whatever the
-- rules, the overrides and the fallbacks decide, and the circuit breaker is left as it is.
pub stub_only_contacts_nothing :
    (c : Settings) (s : ServerState) (r : Incoming) (w : Network) (now : ℕ)
    → c.mode ≡ codes "stub-only"
    → ((handle_intercept c s r w now).0.contacted ≡ false)
      × ((handle_intercept c s r w now).1.breaker ≡ s.breaker)
unfolding final_decision
stub_only_contacts_nothing c s r w now m = elim (handle-cases c s r w now) [
  | inl (x, y, z) ↦ (y, z)
  | inr (x, y) ↦
      let served = act-stub s.breaker (decision_for c s r now) r w now (gated-stub c _ m) in
      (ap (λ (v : Served). v.contacted) (x ∙ ap (λ p. p.0) served), y ∙ ap (λ p. p.1) served)
]

gated-same : (c : Settings) (d : Decision) → text_eq d.action action_stub ≡ true → gated c d ≡ d
unfolding gated stub_only_gate
gated-same c d h = elim (Bool-cases (text_eq c.mode (codes "stub-only"))) [
  | inl y ↦ rw (gated, stub_only_gate, y, h) refl
  | inr n ↦ rw (gated, stub_only_gate, n) refl
]

if_true {ℓ} : {A : Type ℓ} (b : Bool) (x y : A) → b ≡ true → (if b then x else y) ≡ x
if_true true x y h = refl
if_true false x y h = absurd (cc)

false-true : false ≡ true → ⊥
false-true h = cc

final-stub :
    (c : Settings) (r : Incoming) (d : Decision)
    → text_eq d.action action_stub ≡ true
    → d.matched ≡ true
    → final_decision c r d ≡ d
unfolding final_decision
final-stub c r d h m = ap (gated c) (if_true d.matched d (fall_back c r d) m) ∙ gated-same c d h

-- A request that a stub rule matches is answered with the rule's catalog entry, or refused by the
-- limiter; in either case no origin is contacted and the circuit breaker is left as it is, in every mode.
pub stub_rule_serves :
    (c : Settings) (s : ServerState) (r : Incoming) (w : Network) (now : ℕ)
    → (decide s.engine r.domain r.path r.method now).0.action ≡ action_stub
    → (decide s.engine r.domain r.path r.method now).0.matched ≡ true
    → (((handle_intercept c s r w now).0.reply ≡ rate_limited)
        ⊎ ((handle_intercept c s r w now).0.reply
            ≡ stub (decide s.engine r.domain r.path r.method now).0.catalog))
      × ((handle_intercept c s r w now).0.contacted ≡ false)
      × ((handle_intercept c s r w now).1.breaker ≡ s.breaker)
stub_rule_serves c s r w now a m = elim (handle-cases c s r w now) [
  | inl (x, y, z) ↦ (inl x, y, z)
  | inr (x, y) ↦
      let d = (decide s.engine r.domain r.path r.method now).0 in
      let h = (text_eq_iff d.action action_stub).1 a in
      let same = final-stub c r d h m in
      let served = act-stub s.breaker d r w now h in
      let p = ap (λ d. act s.breaker d r w now) same ∙ served in
      (
        inr (ap (λ (v : Served). v.reply) (x ∙ ap (λ p. p.0) p)),
        ap (λ (v : Served). v.contacted) (x ∙ ap (λ p. p.0) p),
        y ∙ ap (λ p. p.1) p,
      )
]

-- An action that neither goes to an origin nor is passthrough.
unguarded :
    (d : Decision) (w : Network)
    → contacts_upstream d ≡ false
    → text_eq d.action action_passthrough ≡ false
    → (serve_action d w).contacted ≡ false
unfolding contacts_upstream serve_action one_of
unguarded d w n p =
    let a : text_eq d.action action_forward_asis ≡ false = ground (arith, n) in
    let b : text_eq d.action action_forward_scrubbed ≡ false = ground (arith, n) in
    let m : text_eq d.action action_forward_mimic ≡ false = ground (arith, n) in
    elim (Bool-cases (text_eq d.action action_stub)) [
      | inl y ↦ rw (serve_action, y) refl
      | inr k ↦ rw (serve_action, k, a, b, p, m) refl
    ]

passes_breaker :
    (b : Breaker) (d : Decision) (r : Incoming) (w : Network) (now : ℕ)
    → (allow b r.domain now).0 ≡ false
    → (act b d r w now).0.contacted ≡ true
    → d.action ≡ action_passthrough
unfolding act contacts_upstream serve_action one_of
passes_breaker b d r w now refused h = elim (Bool-cases (contacts_upstream d)) [
  | inl y ↦ absurd (false-true (rw (act, y, refused) at h))
  | inr n ↦ elim (Bool-cases (text_eq d.action action_passthrough)) [
    | inl p ↦ (text_eq_iff d.action action_passthrough).0 p
    | inr p ↦ absurd (false-true (sym (unguarded d w n p) ∙ (rw (act, n) at h)))
  ]
]

-- While the circuit breaker refuses a domain, no request for it makes the handler contact its origin,
-- except one whose decision is passthrough, which the breaker does not guard.
pub open_breaker_guards :
    (c : Settings) (s : ServerState) (r : Incoming) (w : Network) (now : ℕ)
    → (allow s.breaker r.domain now).0 ≡ false
    → (handle_intercept c s r w now).0.contacted ≡ true
    → (decision_for c s r now).action ≡ action_passthrough
open_breaker_guards c s r w now refused h = elim (handle-cases c s r w now) [
  | inl (x, y, z) ↦ absurd (ground (arith, y, h))
  | inr (x, y) ↦
      passes_breaker s.breaker (decision_for c s r now) r w now refused
        (sym (ap (λ (v : Served). v.contacted) x) ∙ h)
]
