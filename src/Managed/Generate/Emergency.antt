-- ===== src/Managed/Generate/Emergency.antt =====
-- The empty feed of an emergency.
use mirage_chaff.Base.{
  ℕ, ◌-◌, ◌<◌, ◌⊎◌, ◌∷◌, ◌≡◌, refl, ap, sym, subst, Bool, true, false, not, ◌&&◌, ◌||◌, List, [],
  Option, some, none, length, if◌then◌else◌, Bool-cases, inl, inr, arith,
}
use mirage_chaff.Base.Text.{Text, text_eq, codes}
use mirage_chaff.Managed.Types.{Entry, ManagedConfig, Ip, Manager}
use mirage_chaff.Managed.Rows.{effective_config}
use mirage_chaff.Managed.Conflicts.{applied_entries, build_conflicts, conflict_keys}
use mirage_chaff.Managed.Target.{
  Target, Resolved, unresolved, resolves, no_ips, choose_target, resolve_target, take_answer,
  with_error, cache_serves,
}
use mirage_chaff.Managed.Settings.{set_emergency_empty}
use mirage_chaff.Managed.Generate.Frame.{choose_target-Same}
use mirage_chaff.Managed.Generate.{
  FeedStatus, Preview, first_status, auto_emergency, generate_empty, make_feed, generate_with,
  generate, persist_generation,
}

-- A feed without items, and the flag set.
abbrev pub EmptyFeed : Preview × Manager → Type 0
EmptyFeed r =
    (r.0.body ≡ []) × (r.0.items ≡ []) × (r.0.failure ≡ none) × (r.1.cfg.emergency_empty ≡ true)

make_feed-EmptyFeed :
    (empty no_target : Bool) (parse_ip : Text → Option Ip) (status : FeedStatus)
    (cfg : ManagedConfig) (t : Target) (keys : List Text) (entries : List Entry) (now : ℕ)
    (recorded : Bool) (m : Manager)
    → empty ≡ true
    → m.cfg.emergency_empty ≡ true
    → EmptyFeed (make_feed empty no_target parse_ip status cfg t keys entries now recorded m)
unfolding make_feed generate_empty persist_generation
make_feed-EmptyFeed true no_target parse_ip status cfg t keys entries now true m h on =
    (refl, refl, refl, on)
make_feed-EmptyFeed true no_target parse_ip status cfg t keys entries now false m h on =
    (refl, refl, refl, on)
make_feed-EmptyFeed false no_target parse_ip status cfg t keys entries now recorded m h on =
    absurd cc

flag_stays :
    (auto : Bool) (m : Manager) (problem : Text)
    → (auto || m.cfg.emergency_empty) ≡ true
    → (if auto
        then set_emergency_empty true (record m { last_resolve_err = problem })
        else m).cfg.emergency_empty
      ≡ true
unfolding set_emergency_empty
flag_stays true m problem h = refl
flag_stays false m problem h = h

-- No address of an earlier resolution serves: there is none, or none was ever resolved, or the last
-- resolution is longer ago than the configuration's `stale_target_ttl`.
abbrev pub IsSpent : ℕ → Manager → Type 0
IsSpent now m =
    (m.target_ips ≡ []) ⊎ ((m.last_resolve ≡ 0) ⊎ (m.cfg.stale_target_ttl < now - m.last_resolve))

cache_serves-spent : (now : ℕ) (m : Manager) → IsSpent now m → cache_serves now m ≡ false
unfolding cache_serves
cache_serves-spent now m (inl e) = rw e refl
cache_serves-spent now m (inr (inl e)) = ground (arith, e)
cache_serves-spent now m (inr (inr h)) = ground (arith, h)

take_answer-no_ips :
    (now : ℕ) (m : Manager) (problem : Text)
    → IsSpent now m
    → no_ips (take_answer now m (unresolved [] problem)).0.ips ≡ true
unfolding take_answer
take_answer-no_ips now m problem h = rw (cache_serves-spent now m h) refl

choose_target-no_ips :
    (now : ℕ) (problem : Text) (m : Manager)
    → resolves m.cfg ≡ true
    → IsSpent now m
    → no_ips (choose_target now (some (unresolved [] problem)) m).0.ips ≡ true
unfolding choose_target with_error resolve_target
choose_target-no_ips now problem m asks h = elim (Bool-cases (text_eq m.cfg.target_name [])) [
  | inl e ↦ rw (asks, choose_target, e) (take_answer-no_ips now m (codes "target_name required") h)
  | inr e ↦ rw (asks, choose_target, e) (take_answer-no_ips now m problem h)
]

auto_emergency-set :
    (cfg : ManagedConfig) (t : Target)
    → resolves cfg ≡ true
    → no_ips t.ips ≡ true
    → cfg.auto_emergency_empty_on_target_failure ≡ true
    → auto_emergency cfg t true ≡ true
unfolding auto_emergency
auto_emergency-set cfg t asks none_left auto = ground arith

module _ (parse_ip : Text → Option Ip) (hash : Text → Text) where
  generate_with-EmptyFeed :
      (cfg : ManagedConfig) (t : Target) (now : ℕ) (recorded : Bool) (m : Manager)
      → cfg.emergency_empty ≡ m.cfg.emergency_empty
      → (auto_emergency cfg t recorded || cfg.emergency_empty) ≡ true
      → EmptyFeed (generate_with parse_ip hash cfg t now recorded m)
  unfolding generate_with
  generate_with-EmptyFeed cfg t now recorded m same h =
      let entries = applied_entries m.overrides m.entries in
      let conflicts = build_conflicts hash entries m.overrides cfg m.sources in
      let auto = auto_emergency cfg t recorded in
      let cfg' = record cfg { emergency_empty = auto || cfg.emergency_empty } in
      make_feed-EmptyFeed ((auto || cfg.emergency_empty) || not cfg.enabled)
        (resolves cfg && no_ips t.ips) parse_ip
        (first_status cfg' t (length conflicts) (length m.sources)) cfg' t (conflict_keys conflicts)
        entries now recorded
        (if auto then set_emergency_empty true (record m { last_resolve_err = t.error }) else m)
        (ground arith) (flag_stays auto m t.error (subst (λ b. (auto || b) ≡ true) same h))

  -- While the emergency flag is set every generation, served or previewed, gives the empty feed
  -- without an error, whatever the resolver answers, and leaves the flag set.
  pub emergency-EmptyFeed :
      (now : ℕ) (answer : Option Resolved) (recorded : Bool) (m : Manager)
      → m.cfg.emergency_empty ≡ true
      → EmptyFeed (generate parse_ip hash now answer recorded m)
  unfolding generate effective_config
  emergency-EmptyFeed now answer recorded m on =
      let chosen = choose_target now answer m in
      let cfg = effective_config m in
      generate_with-EmptyFeed cfg chosen.0 now recorded chosen.1
        (sym (ap (λ (c : ManagedConfig). c.emergency_empty) (choose_target-Same now answer m).1.3))
        (subst (λ b. (auto_emergency cfg chosen.0 recorded || b) ≡ true) (sym on) (ground arith))

  -- The manager after generations, each with its time, the resolver's answer, and whether it was served.
  unfoldable pub generated : List (ℕ × Option Resolved × Bool) → Manager → Manager
  generated [] m = m
  generated ((now, answer, recorded) ∷ gs) m =
      generated gs (generate parse_ip hash now answer recorded m).1

  generated-emergency :
      (gs : List (ℕ × Option Resolved × Bool)) (m : Manager)
      → m.cfg.emergency_empty ≡ true
      → (generated gs m).cfg.emergency_empty ≡ true
  unfolding generated
  generated-emergency [] m on = on
  generated-emergency ((now, answer, recorded) ∷ gs) m on =
      generated-emergency gs (generate parse_ip hash now answer recorded m).1
        (emergency-EmptyFeed now answer recorded m on).3

  -- A served feed whose target the resolver cannot resolve, where no address from before serves, which is so
  -- when there is none, none was resolved or the last resolution is older than `stale_target_ttl`, and
  -- where the configuration empties the feed on such a failure, is empty and sets the emergency flag; and
  -- so is the next feed after any further generations, also where the target resolves again.
  pub failed_target-EmptyFeed :
      (now : ℕ) (problem : Text) (m : Manager) (gs : List (ℕ × Option Resolved × Bool)) (later : ℕ)
      (answer : Option Resolved) (recorded : Bool)
      → resolves m.cfg ≡ true
      → m.cfg.auto_emergency_empty_on_target_failure ≡ true
      → IsSpent now m
      → (let first = generate parse_ip hash now (some (unresolved [] problem)) true m in
          EmptyFeed first
          × EmptyFeed (generate parse_ip hash later answer recorded (generated gs first.1)))
  unfolding generate effective_config resolves
  failed_target-EmptyFeed now problem m gs later answer recorded asks auto spent =
      let failure = some (unresolved [] problem) in
      let chosen = choose_target now failure m in
      let cfg = effective_config m in
      let none_left = choose_target-no_ips now problem m asks spent in
      let first =
        generate_with-EmptyFeed cfg chosen.0 now true chosen.1
          (sym
            (ap (λ (c : ManagedConfig). c.emergency_empty) (choose_target-Same now failure m).1.3))
          (rw (auto_emergency-set cfg chosen.0 asks none_left auto)) in
      (
        first,
        emergency-EmptyFeed later answer recorded
            (generated gs (generate parse_ip hash now failure true m).1)
            (generated-emergency gs (generate parse_ip hash now failure true m).1 first.3),
      )
