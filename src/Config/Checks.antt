-- ===== src/Config/Checks.antt =====
-- internal/config/config.go: what a configuration that passes `Check` keeps to.
use mirage_chaff.Base.{
  ◌≡◌, ◌↔◌, refl, List, [], ◌∷◌, Bool, true, false, not, ◌||◌, Option, none, some, arith,
}
use mirage_chaff.Base.Text.{Text, codes, text_eq}
use mirage_chaff.Base.Strings.{trim_space}
use mirage_chaff.Policy.Rules.{one_of}
use mirage_chaff.Config.{
  Config, ConfigError, AghManagedConfig, demand, first_error, check, check_managed, check_profiles,
  check_durations, durations, no_texts, log_modes, target_modes, check_target, profiles,
}
use mirage_chaff.Managed.Types.{Ip}

pub demand-none :
    (ok : Bool) (err : ConfigError) (rest : Option ConfigError)
    → (demand ok err rest ≡ none) ↔ ((ok ≡ true) × (rest ≡ none))
unfolding demand
demand-none true err rest = (λ h. (refl, h), λ h. h.1)
demand-none false err rest = (λ h. absurd (cc), λ h. absurd (cc))

first_error-none :
    (e rest : Option ConfigError) → (first_error e rest ≡ none) ↔ ((e ≡ none) × (rest ≡ none))
unfolding first_error
first_error-none none rest = (λ h. (refl, h), λ h. h.1)
first_error-none (some e) rest = (λ h. absurd (cc), λ h. absurd (cc))

check_durations-none :
    (is_duration : Text → Bool) (raws : List Text) (rest : Option ConfigError)
    → (check_durations is_duration raws rest ≡ none)
      ↔ ((check_durations is_duration raws none ≡ none) × (rest ≡ none))
unfolding check_durations demand
check_durations-none is_duration [] rest = ground arith
check_durations-none is_duration (r ∷ raws) rest =
    ground (arith, check_durations-none is_duration raws rest)

module _ (parse_ip : Text → Option Ip) where
  check_managed-none :
      (m : AghManagedConfig) (rest : Option ConfigError)
      → (check_managed parse_ip m rest ≡ none)
        ↔ ((check_managed parse_ip m none ≡ none) × (rest ≡ none))
  unfolding check_managed
  check_managed-none m rest = grind (arith, demand-none, first_error-none)

  -- The target's mode is one of the four, and what the mode needs is there.
  pub target_ok :
      (m : AghManagedConfig)
      → check_managed parse_ip m none ≡ none
      → (one_of m.target_mode target_modes ≡ true) × (check_target parse_ip m ≡ none)
  unfolding check_managed
  target_ok m h =
      let a = (demand-none _ _ _).0 h in
      let b = (demand-none _ _ _).0 a.1 in (b.0, ((first_error-none _ _).0 b.1).0)

  module _ (is_duration : Text → Bool) where
    -- Each demand of `Check`, apart from those on the managed rewrites and the durations, which stay together.
    pub record Checked (c : Config) : Type 0 where
      pub mode_ok : one_of c.mode (codes "full" ∷ codes "stub-only" ∷ []) ≡ true
      pub key_type_ok : one_of c.key_type (codes "ecdsa" ∷ codes "rsa" ∷ []) ≡ true
      pub http3_ok : (not c.http3 || c.quic) ≡ true
      pub https_ok : not (text_eq c.https []) ≡ true
      pub resolvers_ok : not (no_texts c.resolvers) ≡ true
      pub log_ok : one_of c.log.mode log_modes ≡ true
      pub profile_ok : one_of c.unknown_profile.default profiles ≡ true
      pub rule_catalog_ok : not (text_eq c.rule_catalog.path []) ≡ true
      pub managed_ok : check_managed parse_ip c.agh_managed none ≡ none
      pub listen_ok : not (text_eq c.observability.listen []) ≡ true
      pub durations_ok : check_durations is_duration (durations c.agh_managed.scheduler) none ≡ none
      pub scrubbed_ua_ok :
          (text_eq c.scrubbed_ua [] || not (text_eq (trim_space c.scrubbed_ua) [])) ≡ true

    check_profiles-none :
        (c : Config) (rest : Option ConfigError)
        → (check_profiles c rest ≡ none) ↔ (
            (one_of c.unknown_profile.default profiles ≡ true)
            × (not (text_eq c.rule_catalog.path []) ≡ true)
            × (rest ≡ none))
    unfolding check_profiles
    check_profiles-none c rest = grind (arith, demand-none)

    Checked-of : (c : Config) → check parse_ip is_duration c ≡ none → Checked c
    unfolding check
    Checked-of c h =
        let a = (demand-none _ _ _).0 h in
        let b = (demand-none _ _ _).0 a.1 in
        let d = (demand-none _ _ _).0 b.1 in
        let e = (demand-none _ _ _).0 d.1 in
        let f = (demand-none _ _ _).0 e.1 in
        let g = (demand-none _ _ _).0 f.1 in
        let i = (check_profiles-none c _).0 g.1 in
        let j = (check_managed-none c.agh_managed _).0 i.2 in
        let k = (demand-none _ _ _).0 j.1 in
        let l = (check_durations-none is_duration (durations c.agh_managed.scheduler) _).0 k.1 in
        record {
          mode_ok = a.0;
          key_type_ok = b.0;
          http3_ok = d.0;
          https_ok = e.0;
          resolvers_ok = f.0;
          log_ok = g.0;
          profile_ok = i.0;
          rule_catalog_ok = i.1;
          managed_ok = j.0;
          listen_ok = k.0;
          durations_ok = l.0;
          scrubbed_ua_ok = ((demand-none _ _ _).0 l.1).0;
        }

    check-Checked : (c : Config) → Checked c → check parse_ip is_duration c ≡ none
    unfolding check
    check-Checked c k =
        let tail =
          (check_durations-none is_duration (durations c.agh_managed.scheduler) _).1
            (k.durations_ok, (demand-none _ _ _).1 (k.scrubbed_ua_ok, refl)) in
        let managed =
          (check_managed-none c.agh_managed _).1
            (k.managed_ok, (demand-none _ _ _).1 (k.listen_ok, tail)) in
        let middle = (check_profiles-none c _).1 (k.profile_ok, k.rule_catalog_ok, managed) in
        (demand-none _ _ _).1 (
          k.mode_ok,
          (demand-none _ _ _).1 (
            k.key_type_ok,
            (demand-none _ _ _).1 (
              k.http3_ok,
              (demand-none _ _ _).1 (
                k.https_ok,
                (demand-none _ _ _).1 (k.resolvers_ok, (demand-none _ _ _).1 (k.log_ok, middle)),
              ),
            ),
          ),
        )

    pub check_iff : (c : Config) → (check parse_ip is_duration c ≡ none) ↔ Checked c
    check_iff c = (Checked-of c, check-Checked c)
