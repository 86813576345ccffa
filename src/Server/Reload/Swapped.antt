-- ===== src/Server/Reload/Swapped.antt =====
-- internal/server/server.go: what an accepted reload makes of all but the recorder and the
-- imported rules.
use mirage_chaff.Base.{
  ℕ, ◌≡◌, ◌≢◌, refl, ◌∙◌, ap, List, [], ◌∷◌, true, false, not, Option, some, Bool-cases, inl, inr,
  arith, if◌then◌else◌,
}
use mirage_chaff.Base.Text.{Text, text_eq, text_eq_iff}
use mirage_chaff.Base.Strings.{trim_space}
use mirage_chaff.Base.Int.{positive_or}
use mirage_chaff.Policy.Rules.{Ruleset}
use mirage_chaff.Policy.Engine.{swap}
use mirage_chaff.Managed.Settings.{set_config}
use mirage_chaff.Server.Limits.{new_rate_limiter}
use mirage_chaff.Config.{Config, managed_config, no_texts}
use mirage_chaff.Server.Process.{
  Process, new_resolver, new_mimic, new_forwarder, default_scrubbed_ua,
}
use mirage_chaff.Server.Reload.{take_config, swap_state, swap_resolver, equal_strings}

pub equal_strings_iff : (xs ys : List Text) → equal_strings xs ys ≡ true → xs ≡ ys
unfolding equal_strings
equal_strings_iff [] [] h = refl
equal_strings_iff [] (y ∷ ys) h = absurd (cc)
equal_strings_iff (x ∷ xs) [] h = absurd (cc)
equal_strings_iff (x ∷ xs) (y ∷ ys) h = ground (arith, text_eq_iff x y, equal_strings_iff xs ys)

equal_strings_self : (xs : List Text) → equal_strings xs xs ≡ true
unfolding equal_strings
equal_strings_self [] = refl
equal_strings_self (x ∷ xs) = ground (arith, text_eq_iff x x, equal_strings_self xs)

equal_strings_differ : (xs ys : List Text) → equal_strings xs ys ≡ false → xs ≢ ys
equal_strings_differ xs ys h e = absurd (cc (equal_strings_self xs, h, e))

pub new_resolver-some : (xs : List Text) → not (no_texts xs) ≡ true → new_resolver xs ≡ some xs
unfolding new_resolver
new_resolver-some [] h = absurd (cc)
new_resolver-some (x ∷ xs) h = refl

module _ (duration : Text → Option ℕ) where
  -- What an accepted reload makes of all but the recorder and the imported rules. The mimic handler dials
  -- through the resolver from before the reload, the manager through that of the start, and the
  -- forwarder is a new one only where the list of the upstreams changed.
  pub record Swapped (new : Config) (names : List Text) (rs : Ruleset) (now : ℕ) (p q : Process)
      : Type 0 where
    pub cfg : q.cfg ≡ record p.cfg {
      mode = new.mode;
      log = new.log;
      unknown_profile = new.unknown_profile;
      rule_catalog = new.rule_catalog;
      agh_sync = new.agh_sync;
      agh_managed = new.agh_managed;
      mimic = new.mimic;
      resources = record p.cfg.resources {
        rate_limit = new.resources.rate_limit;
        body_max_bytes = new.resources.body_max_bytes;
      };
      resolvers = new.resolvers;
    }
    pub catalog : q.catalog ≡ names
    -- The temporary overrides and the unmatched requests are kept.
    pub engine : q.engine ≡ record p.engine { rs = rs }
    pub resolver : q.resolver ≡ new.resolvers
    pub mimic : q.mimic ≡ record {
      resolver = p.resolver;
      max_bytes = positive_or new.mimic.max_bytes 8_388_608;
      allow_video = new.mimic.allow_video;
      decoys = record { cache_max = positive_or new.mimic.cache_max 512; cache = [] };
    }
    pub forwarder_resolver : q.forwarder.resolver ≡ new.resolvers
    pub forwarder_same : p.cfg.resolvers ≡ new.resolvers → q.forwarder ≡ p.forwarder
    pub forwarder_new :
        p.cfg.resolvers ≢ new.resolvers
        → q.forwarder.scrubbed_ua ≡ (
            if text_eq (trim_space new.scrubbed_ua) []
            then default_scrubbed_ua
            else trim_space new.scrubbed_ua)
    pub breaker : q.breaker ≡ p.breaker
    -- A full bucket of the new rate, or no limit.
    pub limiter : q.limiter ≡ new_rate_limiter new.resources.rate_limit now
    -- The state is kept, and so is the emergency switch.
    pub managed : q.managed ≡ record p.managed {
      cfg = record (managed_config duration new.agh_managed) {
        emergency_empty = p.managed.cfg.emergency_empty;
      };
    }
    pub managed_resolver : q.managed_resolver ≡ p.managed_resolver
    pub admin_rules : q.admin_rules ≡ p.admin_rules

  pub swap-Swapped :
      (new : Config) (catalog : List Text) (rs : Ruleset) (now : ℕ) (p : Process)
      → not (no_texts new.resolvers) ≡ true
      → p.resolver ≡ p.cfg.resolvers
      → p.forwarder.resolver ≡ p.resolver
      → Swapped new catalog rs now p (swap_resolver new (swap_state duration new catalog rs now p))
  unfolding swap_resolver swap_state take_config new_forwarder new_mimic swap set_config
  swap-Swapped new catalog rs now p ne res fwd =
      elim (Bool-cases (equal_strings p.cfg.resolvers new.resolvers)) [
        | inl y ↦
            let eq = equal_strings_iff p.cfg.resolvers new.resolvers y in
            rw (swap_resolver, y)
              (record {
                cfg = ap (λ x. record (take_config new p.cfg) { resolvers = x }) eq;
                catalog = refl;
                engine = refl;
                resolver = res ∙ eq;
                mimic = refl;
                forwarder_resolver = fwd ∙ res ∙ eq;
                forwarder_same = λ h. refl;
                forwarder_new = λ h. absurd (h eq);
                breaker = refl;
                limiter = refl;
                managed = refl;
                managed_resolver = refl;
                admin_rules = refl;
              })
        | inr n ↦
            rw (swap_resolver, n, new_resolver-some new.resolvers ne)
              (record {
                cfg = refl;
                catalog = refl;
                engine = refl;
                resolver = refl;
                mimic = refl;
                forwarder_resolver = refl;
                forwarder_same = λ h. absurd (equal_strings_differ _ _ n h);
                forwarder_new = λ h. refl;
                breaker = refl;
                limiter = refl;
                managed = refl;
                managed_resolver = refl;
                admin_rules = refl;
              })
      ]
