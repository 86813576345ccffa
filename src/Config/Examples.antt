-- ===== src/Config/Examples.antt =====
-- The defaults with a static target.
use mirage_chaff.Base.{ℕ, ◌≡◌, refl, Bool, true, false, List, [], ◌∷◌, Option, none, some}
use mirage_chaff.Base.Text.{Text, codes, text_eq}
use mirage_chaff.Managed.Types.{Ip}
use mirage_chaff.Managed.Feed.{lines, rewrite_lines}
use mirage_chaff.Managed.Target.{resolves}
use mirage_chaff.Policy.Rules.{one_of}
use mirage_chaff.Config.{
  Config, check, demand, first_error, check_profiles, check_managed, check_target, check_static_ips,
  check_statics, static_ok, check_durations, target_mode_of, managed_config,
}
use mirage_chaff.Config.Defaults.{defaults}
use mirage_chaff.Config.Targets.{TargetLines, checked-lines}

abbrev fixed : Config
fixed = record defaults {
  agh_managed = record defaults.agh_managed {
    target_mode = codes "static_ip";
    static_ipv4 = codes "192.0.2.1" ∷ [];
  };
}

abbrev as_v4 : Text → Option Ip
as_v4 raw = some (record { is_v4 = true; text = raw })

abbrev any : Text → Bool
any raw = true

abbrev no_duration : Text → Option ℕ
no_duration raw = none

check-fixed : check as_v4 any fixed ≡ none
unfolding check demand one_of text_eq check_profiles check_managed first_error check_target
    check_static_ips check_statics static_ok target_mode_of check_durations
check-fixed = refl

resolves-fixed : resolves (managed_config no_duration fixed.agh_managed) ≡ false
unfolding resolves managed_config text_eq
resolves-fixed = refl

checked-lines_example :
    (ls : List Text) × (rewrite_lines as_v4
        (codes "a.io")
        (managed_config no_duration fixed.agh_managed)
        []
      ≡ lines ls)
    × TargetLines as_v4 (codes "a.io") fixed.agh_managed ls
checked-lines_example =
    checked-lines as_v4 any no_duration fixed (codes "a.io") [] check-fixed resolves-fixed
