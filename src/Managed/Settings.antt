-- ===== src/Managed/Settings.antt =====
-- internal/aghmanaged/manager.go: the settings that change while the program runs.
use mirage_chaff.Base.{Bool, [], if◌then◌else◌}
use mirage_chaff.Base.Text.{Text}
use mirage_chaff.Managed.Types.{ManagedConfig, Manager, Outcome, refused, done, invalid_preset}
use mirage_chaff.Managed.Rows.{valid_preset}

-- `SetConfig`, less the HTTP client's timeout.
unfoldable pub set_config : ManagedConfig → Manager → Manager
set_config cfg m = record m { cfg = record cfg { emergency_empty = m.cfg.emergency_empty } }

unfoldable pub set_emergency_empty : Bool → Manager → Manager
set_emergency_empty on m = let cfg = m.cfg in record m { cfg = record cfg { emergency_empty = on } }

unfoldable pub set_preset : Text → Manager → Outcome Manager
set_preset preset m =
    if valid_preset preset
    then done (record m { preset = preset })
    else refused (invalid_preset preset)

-- The manager of `Open` where no state is stored yet.
unfoldable pub new_manager : ManagedConfig → Manager
new_manager cfg = record {
  cfg = cfg;
  sources = [];
  entries = [];
  pending = [];
  overrides = [];
  rollbacks = [];
  feed_seen = [];
  feed_snapshot = [];
  feed_history = [];
  preset = [];
  target_ips = [];
  last_resolve = 0;
  last_resolve_err = [];
  last_generated = 0;
}
