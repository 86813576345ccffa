-- ===== src/Managed/Generate/Frame.antt =====
-- What the parts of a generation leave alone.
use mirage_chaff.Base.{
  ℕ, ◌≡◌, refl, Bool, true, false, List, Option, if◌then◌else◌, Bool-cases, inl, inr, arith, ◌∙◌,
}
use mirage_chaff.Base.Text.{Text}
use mirage_chaff.Managed.Types.{Entry, ManagedConfig, Ip, Manager}
use mirage_chaff.Managed.Target.{
  Target, Resolved, resolved, unresolved, resolves, choose_target, take_answer, resolve_target,
}
use mirage_chaff.Managed.Settings.{set_emergency_empty}
use mirage_chaff.Managed.Generate.{
  FeedStatus, auto_emergency, generate_empty, generate_items, make_feed, persist_generation,
}

-- What a generation never changes.
abbrev pub SameCatalog : Manager → Manager → Type 0
SameCatalog m m' =
    (m'.entries ≡ m.entries)
    × (m'.sources ≡ m.sources)
    × (m'.pending ≡ m.pending)
    × (m'.overrides ≡ m.overrides)
    × (m'.rollbacks ≡ m.rollbacks)
    × (m'.preset ≡ m.preset)

-- What a preview leaves alone besides.
abbrev pub SameFeed : Manager → Manager → Type 0
SameFeed m m' =
    (m'.feed_history ≡ m.feed_history)
    × (m'.feed_snapshot ≡ m.feed_snapshot)
    × (m'.feed_seen ≡ m.feed_seen)
    × (m'.cfg ≡ m.cfg)

pub make_feed-SameCatalog :
    (empty no_target : Bool) (parse_ip : Text → Option Ip) (status : FeedStatus)
    (cfg : ManagedConfig) (t : Target) (keys : List Text) (entries : List Entry) (now : ℕ)
    (recorded : Bool) (m : Manager)
    → SameCatalog m (make_feed empty no_target parse_ip status cfg t keys entries now recorded m).1
unfolding make_feed generate_empty generate_items persist_generation
make_feed-SameCatalog true no_target parse_ip status cfg t keys entries now true m =
    (refl, refl, refl, refl, refl, refl)
make_feed-SameCatalog true no_target parse_ip status cfg t keys entries now false m =
    (refl, refl, refl, refl, refl, refl)
make_feed-SameCatalog false true parse_ip status cfg t keys entries now recorded m =
    (refl, refl, refl, refl, refl, refl)
make_feed-SameCatalog false false parse_ip status cfg t keys entries now true m =
    (refl, refl, refl, refl, refl, refl)
make_feed-SameCatalog false false parse_ip status cfg t keys entries now false m =
    (refl, refl, refl, refl, refl, refl)

pub make_feed-SameFeed :
    (empty no_target : Bool) (parse_ip : Text → Option Ip) (status : FeedStatus)
    (cfg : ManagedConfig) (t : Target) (keys : List Text) (entries : List Entry) (now : ℕ)
    (m : Manager)
    → SameFeed m (make_feed empty no_target parse_ip status cfg t keys entries now false m).1
unfolding make_feed generate_empty generate_items
make_feed-SameFeed true no_target parse_ip status cfg t keys entries now m =
    (refl, refl, refl, refl)
make_feed-SameFeed false true parse_ip status cfg t keys entries now m = (refl, refl, refl, refl)
make_feed-SameFeed false false parse_ip status cfg t keys entries now m = (refl, refl, refl, refl)

pub take_answer-Same :
    (now : ℕ) (m : Manager) (r : Resolved)
    → SameCatalog m (take_answer now m r).1 × SameFeed m (take_answer now m r).1
unfolding take_answer
take_answer-Same now m (resolved ips) =
    ((refl, refl, refl, refl, refl, refl), (refl, refl, refl, refl))
take_answer-Same now m (unresolved given problem) =
    ((refl, refl, refl, refl, refl, refl), (refl, refl, refl, refl))

pub choose_target-Same :
    (now : ℕ) (answer : Option Resolved) (m : Manager)
    → SameCatalog m (choose_target now answer m).1 × SameFeed m (choose_target now answer m).1
unfolding choose_target
choose_target-Same now answer m = elim (Bool-cases (resolves m.cfg)) [
  | inl e ↦
      rw (e, choose_target) (take_answer-Same now m (resolve_target m.cfg m.target_ips answer))
  | inr e ↦ rw (e, choose_target) ((refl, refl, refl, refl, refl, refl), (refl, refl, refl, refl))
]

pub SameCatalog-trans : (a b c : Manager) → SameCatalog a b → SameCatalog b c → SameCatalog a c
SameCatalog-trans a b c p q = (q.0 ∙ p.0, q.1 ∙ p.1, q.2 ∙ p.2, q.3 ∙ p.3, q.4 ∙ p.4, q.5 ∙ p.5)

pub emergency-SameCatalog :
    (auto : Bool) (m : Manager) (problem : Text)
    → SameCatalog m
        (if auto then set_emergency_empty true (record m { last_resolve_err = problem }) else m)
unfolding set_emergency_empty
emergency-SameCatalog true m problem = (refl, refl, refl, refl, refl, refl)
emergency-SameCatalog false m problem = (refl, refl, refl, refl, refl, refl)

pub auto_emergency-preview : (cfg : ManagedConfig) (t : Target) → auto_emergency cfg t false ≡ false
unfolding auto_emergency
auto_emergency-preview cfg t = ground arith

pub emergency-SameFeed :
    (auto : Bool) (m : Manager) (problem : Text)
    → auto ≡ false
    → SameFeed m
        (if auto then set_emergency_empty true (record m { last_resolve_err = problem }) else m)
emergency-SameFeed true m problem h = absurd cc
emergency-SameFeed false m problem h = (refl, refl, refl, refl)

pub SameFeed-trans : (a b c : Manager) → SameFeed a b → SameFeed b c → SameFeed a c
SameFeed-trans a b c p q = (q.0 ∙ p.0, q.1 ∙ p.1, q.2 ∙ p.2, q.3 ∙ p.3)
