-- ===== src/Managed/Target.antt =====
-- internal/aghmanaged/manager.go: the addresses that the rewrites point to. The resolver's answer and
-- the clock's reading are arguments.
use mirage_chaff.Base.{
  ◌≡◌, ◌⊎◌, inl, inr, refl, ℕ, ◌-◌, Bool, true, false, not, ◌&&◌, ◌||◌, List, [], ◌∷◌, Option, none,
  some, leb, ◌==◌, if◌then◌else◌,
}
use mirage_chaff.Base.Text.{Text, codes, text_eq}
use mirage_chaff.Managed.Types.{ManagedConfig, Ip, Manager}
use mirage_chaff.Managed.Feed.{resolved_ip}

pub data Resolved : Type 0 where
  resolved : List Ip → Resolved
  unresolved : List Ip → Text → Resolved

-- The resolver's answer is none where there is no resolver; then the cached addresses are given.
unfoldable pub resolve_target : ManagedConfig → List Ip → Option Resolved → Resolved
resolve_target cfg cached answer =
    if text_eq cfg.target_name []
    then unresolved [] (codes "target_name required")
    else elim answer [ none ↦ unresolved cached (codes "resolver unavailable") | some r ↦ r ]

-- `cfg.TargetMode == "" || cfg.TargetMode == "resolved_ip"`
unfoldable pub resolves : ManagedConfig → Bool
resolves cfg = text_eq cfg.target_mode [] || text_eq cfg.target_mode resolved_ip

abbrev pub no_ips : List Ip → Bool
no_ips [] = true
no_ips (ip ∷ ips) = false

-- What one generation of the feed works with.
pub record Target : Type 0 where
  pub ips : List Ip
  pub error : Text
  pub cache_used : Bool

-- Whether the addresses of the last resolution still serve.
unfoldable pub cache_serves : ℕ → Manager → Bool
cache_serves now m =
    not (no_ips m.target_ips)
    && not (m.last_resolve == 0)
    && leb (now - m.last_resolve) m.cfg.stale_target_ttl

unfoldable pub take_answer : ℕ → Manager → Resolved → Target × Manager
take_answer now m (resolved ips) = (
  record { ips = ips; error = []; cache_used = false },
  record m { target_ips = ips; last_resolve = now; last_resolve_err = [] },
)
take_answer now m (unresolved given problem) = (
  record {
    ips = if cache_serves now m then m.target_ips else given;
    error = problem;
    cache_used = cache_serves now m;
  },
  record m { last_resolve_err = problem },
)

unfoldable pub with_error : Bool → Target → Target
with_error asked t = record t {
  error =
      if asked && no_ips t.ips && text_eq t.error []
      then codes "no target IPs resolved"
      else t.error;
}

-- The resolution at the start of `generate`.
unfoldable pub choose_target : ℕ → Option Resolved → Manager → Target × Manager
choose_target now answer m =
    let asked = resolves m.cfg in
    let kept : Target = record { ips = []; error = m.last_resolve_err; cache_used = false } in
    let chosen =
      if asked then take_answer now m (resolve_target m.cfg m.target_ips answer) else (kept, m) in
    (with_error asked chosen.0, chosen.1)

-- `RefreshTarget`, less the status that it reports.
unfoldable pub refresh_target : ℕ → Option Resolved → Manager → Manager
refresh_target now answer m =
    if not (resolves m.cfg) then m else elim (resolve_target m.cfg m.target_ips answer) [
      | resolved ips ↦ record m { target_ips = ips; last_resolve = now; last_resolve_err = [] }
      | unresolved given problem ↦ record m { last_resolve_err = problem }
    ]

pub Resolved-cases :
    (r : Resolved)
    → ((ips : List Ip) × (r ≡ resolved ips))
      ⊎ ((given : List Ip) × (problem : Text) × (r ≡ unresolved given problem))
Resolved-cases (resolved ips) = inl (ips, refl)
Resolved-cases (unresolved given problem) = inr (given, problem, refl)
