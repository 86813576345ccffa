-- ===== src/Server/Reload/Examples.antt =====
-- A server that starts with the program's defaults, and its reload with another resolver.
use mirage_chaff.Base.{ℕ, ◌≡◌, refl, Bool, true, List, [], ◌∷◌, Option, none, some, ◌⊎◌}
use mirage_chaff.Base.Text.{Text, codes, text_eq}
use mirage_chaff.Policy.Rules.{Ruleset, is, one_of, catalog_refs, rule_refs, add_ref}
use mirage_chaff.Policy.Load.{PolicyFile, missing, safe_default, load}
use mirage_chaff.Managed.Types.{Ip}
use mirage_chaff.Managed.Settings.{new_manager}
use mirage_chaff.Managed.Stored.{open_manager, missing as no_file}
use mirage_chaff.Config.{
  Config, managed_config, check, demand, check_profiles, check_managed, first_error, check_target,
  target_mode_of, check_durations,
}
use mirage_chaff.Config.Defaults.{defaults}
use mirage_chaff.Server.Process.{
  Process, Reading, start, built, run_with, validate_refs, missing_ref, new_resolver,
}
use mirage_chaff.Server.Reload.{reload}
use mirage_chaff.Server.Reload.Ready.{Ready, Passed, start-Ready, reload_all_or_nothing}
use mirage_chaff.Server.Reload.Applied.{Applied}
use mirage_chaff.Server.Reload.Events.{reloads, happen_all, happen_all-fit}

abbrev config : Text → Config
config upstream = record defaults { resolvers = upstream ∷ [] }

abbrev reading : Text → Reading
reading upstream = record {
  config = some (config upstream);
  catalog = some (codes "beacon-204" ∷ []);
  policy = missing;
  rule_file = some [];
  synced = λ rules. rules;
}

abbrev no_policy : Text → Option PolicyFile
no_policy raw = none

abbrev no_ip : Text → Option Ip
no_ip raw = none

abbrev any_duration : Text → Bool
any_duration raw = true

abbrev no_time : Text → Option ℕ
no_time raw = none

abbrev one : Text
one = codes "https://one.example/dns-query"

abbrev other : Text
other = codes "https://other.example/dns-query"

abbrev first : Process
first =
    built no_time (config one) (codes "beacon-204" ∷ [])
      (record { rules = []; default = safe_default }) [] (reading one) (one ∷ [])
      (new_manager (managed_config no_time (config one).agh_managed)) 7

starts : start no_time no_policy no_ip any_duration no_file (reading one) 7 ≡ is first
unfolding start check demand one_of text_eq check_profiles check_managed first_error check_target
    target_mode_of check_durations run_with load validate_refs missing_ref catalog_refs rule_refs
    add_ref new_resolver open_manager
starts = refl

happen_all-fit_example :
    Ready no_policy no_ip any_duration no_time
      (happen_all no_policy no_ip any_duration no_time (reloads (reading other) 9 ∷ []) first)
happen_all-fit_example =
    happen_all-fit no_policy no_ip any_duration no_time no_file (reading one) 7 first
      (reloads (reading other) 9 ∷ []) starts

first-Ready : Ready no_policy no_ip any_duration no_time first
first-Ready = start-Ready no_policy no_ip any_duration no_time no_file (reading one) 7 first starts

abbrev second : Process
second = reload no_policy no_ip any_duration no_time (reading other) 9 first

reload_all_or_nothing_example :
    (second ≡ first)
    ⊎ ((new : Config) × (catalog : List Text) × (rs : Ruleset) × Passed no_policy no_ip any_duration
          no_time
          (reading other)
          new
          catalog
          rs
        × Applied no_time new catalog rs (reading other) 9 first second)
reload_all_or_nothing_example =
    reload_all_or_nothing no_policy no_ip any_duration no_time (reading other) 9 first first-Ready
