-- ===== src/Server/Reload/Applied.antt =====
-- internal/server/server.go: what an accepted reload leaves.
use mirage_chaff.Base.{
  ℕ, ◌+◌, ◌≡◌, refl, ◌∙◌, ap, List, [], true, false, not, Option, none, some, Bool-cases,
  Option-cases, inl, inr, if◌then◌else◌,
}
use mirage_chaff.Base.Text.{Text, codes, text_eq}
use mirage_chaff.Policy.Rules.{Ruleset}
use mirage_chaff.Observability.Records.{Recorder}
use mirage_chaff.Observability.Recorder.{set_options}
use mirage_chaff.Managed.Rows.{nonempty}
use mirage_chaff.Config.{Config, no_texts}
use mirage_chaff.Server.Process.{
  Process, RuleStore, Reading, new_resolver, debug_scopes, recorder_options, sync_store,
}
use mirage_chaff.Server.Reload.{
  take_config, swap_state, swap_resolver, refresh_rules, set_recorder, apply, equal_strings,
}
use mirage_chaff.Server.Reload.Swapped.{Swapped, swap-Swapped}

module _ (duration : Text → Option ℕ) where
  -- Neither the recorder nor the imported rules matter to it.
  Swapped-others :
      (new : Config) (names : List Text) (rs : Ruleset) (now : ℕ) (p q : Process)
      (rules : RuleStore) (recorder : Recorder)
      → Swapped duration new names rs now p q
      → Swapped duration new names rs now p (record q { rules = rules; recorder = recorder })
  Swapped-others new names rs now p q rules recorder a = record {
    cfg = a.cfg;
    catalog = a.catalog;
    engine = a.engine;
    resolver = a.resolver;
    mimic = a.mimic;
    forwarder_resolver = a.forwarder_resolver;
    forwarder_same = a.forwarder_same;
    forwarder_new = a.forwarder_new;
    breaker = a.breaker;
    limiter = a.limiter;
    managed = a.managed;
    managed_resolver = a.managed_resolver;
    admin_rules = a.admin_rules;
  }

  -- What an accepted reload makes of the imported rules: they are opened again where the configuration
  -- says so and their file can be read, and then synced where it says that.
  pub record Refreshed (new : Config) (r : Reading) (before after : RuleStore) : Type 0 where
    pub kept : new.rule_catalog.refresh_on_reload ≡ false → after ≡ before
    pub unread : r.rule_file ≡ none → after ≡ before
    pub opened :
        new.rule_catalog.refresh_on_reload ≡ true
        → (rules : _) → r.rule_file ≡ some rules
        → after ≡ record {
          opened = before.opened + 1;
          rules = if new.agh_sync then r.synced rules else rules;
        }

  -- What an accepted reload makes of a server.
  pub record Applied (new : Config) (names : List Text) (rs : Ruleset) (r : Reading) (now : ℕ)
      (p q : Process) : Type 0 where
    pub swapped : Swapped duration new names rs now p q
    -- The records and the counters are kept.
    pub recorder : q.recorder ≡ record p.recorder {
      redact = new.log.redact;
      mode = if text_eq new.log.mode [] then codes "redacted" else new.log.mode;
      debug_scopes = debug_scopes duration now new.log.debug_scope;
      catalog_metrics = new.observability.catalog_enabled;
      emit_catalog_log = new.observability.emit_siem_catalog_fields;
    }
    pub rules : Refreshed new r p.rules q.rules

  refresh_rules-Refreshed :
      (new : Config) (r : Reading) (p : Process)
      → (after : RuleStore) × Refreshed new r p.rules after
        × (refresh_rules new r p ≡ record p { rules = after })
  unfolding refresh_rules sync_store
  refresh_rules-Refreshed new r p = elim (Bool-cases new.rule_catalog.refresh_on_reload) [
    | inr n ↦ (
      p.rules,
      record { kept = λ h. refl; unread = λ h. refl; opened = λ h rules k. absurd (cc) },
      rw (refresh_rules, n) refl,
    )
    | inl y ↦ elim (Option-cases r.rule_file) [
      | inl f ↦ (
        p.rules,
        record { kept = λ h. refl; unread = λ h. refl; opened = λ h rules k. absurd (cc) },
        rw (refresh_rules, y, f) refl,
      )
      | inr (rules, f) ↦ (
        sync_store new.agh_sync r.synced (record { opened = p.rules.opened + 1; rules = rules }),
        record {
          kept = λ h. absurd (cc);
          unread = λ h. absurd (cc);
          opened = λ h others k.
              let e : rules ≡ others = cc in
              ap
                (λ rs.
                  sync_store new.agh_sync r.synced
                    (record { opened = p.rules.opened + 1; rules = rs }))
                e
              ∙ synced new.agh_sync r.synced (p.rules.opened + 1) others;
        },
        rw (refresh_rules, y, f) refl,
      )
    ]
  ]
    where
      synced :
          (asked : _) (f : _) (n : ℕ) (rules : _)
          → sync_store asked f (record { opened = n; rules = rules })
            ≡ record { opened = n; rules = if asked then f rules else rules }
      synced true f n rules = refl
      synced false f n rules = refl

  swap-rules :
      (new : Config) (names : List Text) (rs : Ruleset) (now : ℕ) (p : Process)
      → ((swap_resolver new (swap_state duration new names rs now p)).rules ≡ p.rules)
        × ((swap_resolver new (swap_state duration new names rs now p)).recorder ≡ p.recorder)
  unfolding swap_resolver swap_state equal_strings take_config
  swap-rules new names rs now p = elim (Bool-cases (equal_strings p.cfg.resolvers new.resolvers)) [
    | inl y ↦ rw (swap_resolver, y) (refl, refl)
    | inr n ↦ elim (Option-cases (new_resolver new.resolvers)) [
      | inl f ↦ rw (swap_resolver, n, f) (refl, refl)
      | inr (res, f) ↦ rw (swap_resolver, n, f) (refl, refl)
    ]
  ]

  pub apply-Applied :
      (new : Config) (names : List Text) (rs : Ruleset) (r : Reading) (now : ℕ) (p : Process)
      → not (no_texts new.resolvers) ≡ true
      → p.resolver ≡ p.cfg.resolvers
      → p.forwarder.resolver ≡ p.resolver
      → Applied new names rs r now p (apply duration new names rs r now p)
  unfolding apply set_recorder set_options recorder_options nonempty swap_resolver
  apply-Applied new names rs r now p ne res fwd =
      let q = swap_resolver new (swap_state duration new names rs now p) in
      let (same_rules, same_recorder) = swap-rules new names rs now p in
      let (after, refreshed, e) = refresh_rules-Refreshed new r q in
      rw (apply, e)
        (record {
          swapped =
              Swapped-others new names rs now p q after _
                (swap-Swapped duration new names rs now p ne res fwd);
          recorder =
              ap
                (λ (x : Recorder). record x {
                  redact = new.log.redact;
                  mode = if text_eq new.log.mode [] then codes "redacted" else new.log.mode;
                  debug_scopes = debug_scopes duration now new.log.debug_scope;
                  catalog_metrics = new.observability.catalog_enabled;
                  emit_catalog_log = new.observability.emit_siem_catalog_fields;
                })
                same_recorder;
          rules = rw same_rules at refreshed;
        })
