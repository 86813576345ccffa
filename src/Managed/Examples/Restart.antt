-- ===== src/Managed/Examples/Restart.antt =====
-- A manager of two sources that is stored and opened again.
use mirage_chaff.Base.{◌≡◌, refl, some}
use mirage_chaff.Base.Dict.{lookup}
use mirage_chaff.Base.Text.{text_eq}
use mirage_chaff.Managed.Types.{Manager}
use mirage_chaff.Managed.Stored.{copy_state, open_manager, stored}
use mirage_chaff.Managed.Stored.RoundTrip.{IsStorable, Restarted, open_manager-copy_state}
use mirage_chaff.Managed.Examples.{config, manager}

manager-IsStorable : IsStorable manager
unfolding lookup text_eq
manager-IsStorable = record {
  sources_keyed = (refl, (refl, tt));
  sources_unique = (refl, (refl, tt));
  entries_keyed = (refl, (refl, tt));
  entries_unique = (refl, (refl, tt));
}

open_manager-copy_state_example :
    (m : Manager) × (open_manager config (stored (copy_state manager)) ≡ some m)
    × Restarted config manager m
open_manager-copy_state_example = open_manager-copy_state config manager manager-IsStorable
