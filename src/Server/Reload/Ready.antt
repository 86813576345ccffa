-- ===== src/Server/Reload/Ready.antt =====
-- internal/server/server.go: what holds of the running server after its start and any sequence of
-- reloads, requests and changes of the temporary overrides.
use mirage_chaff.Base.{
  ℕ, Bool, ◌≡◌, refl, ◌∙◌, sym, subst, ap, List, Option, none, some, Option-cases, inl, inr, ◌⊎◌,
}
use mirage_chaff.Base.Text.{Text}
use mirage_chaff.Policy.Rules.{Ruleset, is, Result-cases, match_request}
use mirage_chaff.Policy.Load.{PolicyFile, load}
use mirage_chaff.Policy.Load.Valid.{is-injective, fails_is}
use mirage_chaff.Policy.Engine.{Engine, new_engine}
use mirage_chaff.Managed.Types.{Ip, Manager}
use mirage_chaff.Managed.Stored.{StateFile, open_manager}
use mirage_chaff.RuleCatalog.{CatalogEntry}
use mirage_chaff.Config.{Config, check, managed_config}
use mirage_chaff.Config.Checks.{Checked, check_iff}
use mirage_chaff.Server.Process.{
  Process, Reading, validate_refs, new_forwarder, start, run_with, built,
}
use mirage_chaff.Server.Reload.Refs.{Known, validated-Known}
use mirage_chaff.Server.Reload.Swapped.{new_resolver-some}
use mirage_chaff.Server.Reload.Applied.{Applied, apply-Applied}
use mirage_chaff.Server.Reload.{
  aborted, validated, validate, validate_with, take_config, finish, reload,
}

module _ (parse : Text → Option PolicyFile) where
  module _ (parse_ip : Text → Option Ip) (is_duration : Text → Bool)
      (duration : Text → Option ℕ) where
    -- The configuration in use would pass `Check`, the rules name no stub that is not there, and the
    -- forwarder asks the resolvers of the configuration.
    pub record Ready (p : Process) : Type 0 where
      pub config_ok : check parse_ip is_duration p.cfg ≡ none
      pub known :
          (domain path method : Text)
          → Known p.catalog (match_request p.engine.rs domain path method)
      pub resolver_ok : p.resolver ≡ p.cfg.resolvers
      pub forwarder_ok : p.forwarder.resolver ≡ p.resolver

    built-Ready :
        (cfg : Config) (state : StateFile) (r : Reading) (now : ℕ) (catalog : List Text)
        (rs : Ruleset) (rules : List CatalogEntry) (m : Manager)
        → check parse_ip is_duration cfg ≡ none
        → load parse r.policy ≡ is rs
        → validate_refs catalog rs ≡ none
        → Ready (built duration cfg catalog rs rules r cfg.resolvers m now)
    unfolding built new_engine new_forwarder
    built-Ready cfg state r now catalog rs rules m c l v = record {
      config_ok = c;
      known = λ domain path method. validated-Known parse r catalog rs domain path method l v;
      resolver_ok = refl;
      forwarder_ok = refl;
    }

    run_with-Ready :
        (cfg : Config) (state : StateFile) (r : Reading) (now : ℕ) (p : Process)
        → check parse_ip is_duration cfg ≡ none
        → run_with duration parse cfg state r now ≡ is p
        → Ready p
    unfolding run_with
    run_with-Ready cfg state r now p c e = elim (Option-cases r.catalog) [
      | inl f ↦ absurd (cc (rw (run_with, f) at e))
      | inr (catalog, f) ↦ elim (Result-cases (load parse r.policy)) [
        | inl (x, g) ↦ absurd (cc (rw (run_with, f, g) at e))
        | inr (rs, g) ↦ elim (Option-cases (validate_refs catalog rs)) [
          | inr (x, h) ↦ absurd (cc (rw (run_with, f, g, h) at e))
          | inl h ↦ elim (Option-cases r.rule_file) [
            | inl i ↦ absurd (cc (rw (run_with, f, g, h, i) at e))
            | inr (rules, i) ↦
                let some_resolver =
                  new_resolver-some cfg.resolvers
                    ((check_iff parse_ip is_duration cfg).0 c).resolvers_ok in
                elim (Option-cases (open_manager (managed_config duration cfg.agh_managed) state)) [
                  | inl j ↦ absurd (cc (rw (run_with, f, g, h, i, some_resolver, j) at e))
                  | inr (m, j) ↦
                      subst Ready (is-injective (rw (run_with, f, g, h, i, some_resolver, j) at e))
                        (built-Ready cfg state r now catalog rs rules m c g h)
                ]
          ]
        ]
      ]
    ]

    -- Why a reload was not aborted.
    pub record Passed (r : Reading) (new : Config) (names : List Text) (rs : Ruleset) : Type 0 where
      pub config_read : r.config ≡ some new
      pub catalog_read : r.catalog ≡ some names
      pub config_ok : check parse_ip is_duration new ≡ none
      pub loaded : load parse r.policy ≡ is rs
      pub refs_ok : validate_refs names rs ≡ none

    validate-cases :
        (r : Reading)
        → (validate parse parse_ip is_duration r ≡ aborted)
          ⊎ ((new : Config) × (catalog : List Text) × (rs : Ruleset) × (validate parse parse_ip
                  is_duration r
                ≡ validated new catalog rs)
              × Passed r new catalog rs)
    unfolding validate validate_with
    validate-cases r = elim (Option-cases r.config) [
      | inl e ↦ rw (validate, e) (inl refl)
      | inr (new, e) ↦ elim (Option-cases (check parse_ip is_duration new)) [
        | inr (x, c) ↦ rw (validate, e, c) (inl refl)
        | inl c ↦ elim (Option-cases r.catalog) [
          | inl f ↦ rw (validate, e, c, validate_with, f) (inl refl)
          | inr (catalog, f) ↦ elim (Result-cases (load parse r.policy)) [
            | inl (x, g) ↦ rw (validate, e, c, validate_with, f, g) (inl refl)
            | inr (rs, g) ↦ elim (Option-cases (validate_refs catalog rs)) [
              | inr (x, h) ↦ rw (validate, e, c, validate_with, f, g, h) (inl refl)
              | inl h ↦ inr (
                new,
                catalog,
                rs,
                rw (validate, e, c, validate_with, f, g, h) refl,
                record {
                  config_read = e;
                  catalog_read = f;
                  config_ok = c;
                  loaded = g;
                  refs_ok = h;
                },
              )
            ]
          ]
        ]
      ]
    ]

    applied_config :
        (new old : Config)
        → Checked parse_ip is_duration new
        → Checked parse_ip is_duration old
        → Checked parse_ip is_duration (record (take_config new old) { resolvers = new.resolvers })
    unfolding take_config
    applied_config new old n o = record {
      mode_ok = n.mode_ok;
      key_type_ok = o.key_type_ok;
      http3_ok = o.http3_ok;
      https_ok = o.https_ok;
      resolvers_ok = n.resolvers_ok;
      log_ok = n.log_ok;
      profile_ok = n.profile_ok;
      rule_catalog_ok = n.rule_catalog_ok;
      managed_ok = n.managed_ok;
      listen_ok = o.listen_ok;
      durations_ok = n.durations_ok;
      scrubbed_ua_ok = o.scrubbed_ua_ok;
    }

    Applied-Ready :
        (r : Reading) (new : Config) (catalog : List Text) (rs : Ruleset) (now : ℕ) (p q : Process)
        → Passed r new catalog rs
        → Ready p
        → Applied duration new catalog rs r now p q
        → Ready q
    unfolding take_config
    Applied-Ready r new catalog rs now p q k h a = record {
      config_ok =
          subst (λ (c : Config). check parse_ip is_duration c ≡ none) (sym a.swapped.cfg)
            ((check_iff parse_ip is_duration _).1 (
              applied_config new p.cfg ((check_iff parse_ip is_duration new).0 k.config_ok)
                ((check_iff parse_ip is_duration p.cfg).0 h.config_ok)));
      known = λ domain path method.
          subst (λ (e : Engine). Known q.catalog (match_request e.rs domain path method))
            (sym a.swapped.engine)
            (subst (λ c. Known c (match_request rs domain path method)) (sym a.swapped.catalog)
              (validated-Known parse r catalog rs domain path method k.loaded k.refs_ok));
      resolver_ok = a.swapped.resolver ∙ ap (λ (c : Config). c.resolvers) (sym a.swapped.cfg);
      forwarder_ok = a.swapped.forwarder_resolver ∙ sym a.swapped.resolver;
    }

    -- A reload of a server that is fit for use changes nothing at all, or every check has passed and all is
    -- as it was read: the catalog, the rules, the configuration but for what needs a restart, the
    -- limiter, full again, and the recorder's settings. It keeps the temporary overrides and the
    -- unmatched requests, the records and counters, the breaker, and the manager's state and emergency
    -- switch. The imported rules are opened again only where the configuration asks for it and the file
    -- can be read. The mimic handler is new and dials through the resolver from before, the manager
    -- through that of the start, and the forwarder takes the new User-Agent only where the list of the
    -- upstreams changed.
    pub reload_all_or_nothing :
        (r : Reading) (now : ℕ) (p : Process)
        → Ready p
        → (reload parse parse_ip is_duration duration r now p ≡ p)
          ⊎ ((new : Config) × (catalog : List Text) × (rs : Ruleset) × Passed r new catalog rs
              × Applied duration new catalog rs r now p
                  (reload parse parse_ip is_duration duration r now p))
    unfolding reload finish
    reload_all_or_nothing r now p h = elim (validate-cases r) [
      | inl e ↦ rw (reload, e) (inl refl)
      | inr (new, catalog, rs, e, k) ↦
          let checked = (check_iff parse_ip is_duration new).0 k.config_ok in
          rw (reload, e)
            (inr (
              new,
              catalog,
              rs,
              k,
              apply-Applied duration new catalog rs r now p checked.resolvers_ok h.resolver_ok
                  h.forwarder_ok,
            ))
    ]

    pub reload-Ready :
        (r : Reading) (now : ℕ) (p : Process)
        → Ready p
        → Ready (reload parse parse_ip is_duration duration r now p)
    reload-Ready r now p h = elim (reload_all_or_nothing r now p h) [
      | inl e ↦ subst Ready (sym e) h
      | inr (new, catalog, rs, k, a) ↦ Applied-Ready r new catalog rs now p _ k h a
    ]

    pub start-Ready :
        (state : StateFile) (r : Reading) (now : ℕ) (p : Process)
        → start duration parse parse_ip is_duration state r now ≡ is p
        → Ready p
    unfolding start
    start-Ready state r now p e = elim (Option-cases r.config) [
      | inl f ↦ absurd (fails_is (rw (start, f) at e))
      | inr (cfg, f) ↦ elim (Option-cases (check parse_ip is_duration cfg)) [
        | inr (x, c) ↦ absurd (fails_is (rw (start, f, c) at e))
        | inl c ↦ run_with-Ready cfg state r now p c (rw (start, f, c) at e)
      ]
    ]
