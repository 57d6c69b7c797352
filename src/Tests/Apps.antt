-- ===== src/Tests/Apps.antt =====
-- The programs at concrete inputs. A task is its number.
use rdp_ext.Common.{ℕ, ◌≡◌, ◌⊎◌, refl, true, false, List, [], ◌∷◌, some, none}
use rdp_ext.Common.Text.{text}
use rdp_ext.Transport.ChannelHandle.{null}
use rdp_ext.Transport.Wts.Reading.{Answer, Interference, quiet, stops, failed}
use rdp_ext.Runtime.WtsRuntime
use rdp_ext.Apps.Server.{channel_name, main}
use rdp_ext.Apps.Server.Ending.{IsReleased, main_returns}
use rdp_ext.Transport.Wts.Reading.Ending.{asks_stop}
use rdp_ext.Apps.Plugin.{unused}
use rdp_ext.Apps.Plugin.Entries.{Entry, Serves, spawns, entries, entries_spawn_once}
use rdp_ext.Transport.Mstsc.Registry.{no_instances}
use rdp_ext.Transport.Mstsc.Freerdp.{Headers}

abbrev no_channel : Answer
no_channel = record {
  to_open = record {
    channel = null;
    query = record { ok = false; buffer = none; bytes_returned = 0 };
  };
  to_read = failed;
}

named_channel : channel_name (text "wts_server" ∷ text "TEST" ∷ []) ≡ text "TEST"
unfolding channel_name
named_channel = refl

abbrev rounds : List (Interference × Answer)
rounds = (quiet, no_channel) ∷ (stops, no_channel) ∷ []

main_returns_example :
    let o = main {Task = ℕ} (text "wts_server" ∷ []) rounds in
    ((asks_stop rounds ≡ false)
      × (o.status ≡ none)
      × (o.runtime.transport.running ≡ true)
      × (o.runtime.executor.started ≡ true))
    ⊎ ((asks_stop rounds ≡ true)
        × (o.status ≡ some 0)
        × IsReleased ℕ o
        × (o.calls ≡ (WtsRuntime.run {Task = ℕ} WtsRuntime.make rounds).2))
main_returns_example = main_returns ℕ (text "wts_server" ∷ []) rounds

abbrev headers : Headers
headers = record { sizeof_entry_points_ex = 64; channel_magic_number = 7 }

abbrev entered : Entry
entered = record {
  entry_points = some (record { cb_size = 64; magic_number = 7 });
  init_handle = 40;
  rc = 0;
}

entries_spawn_once_example :
    let (last, calls) = entries ℕ false headers 99 unused no_instances (entered ∷ entered ∷ []) in
    Serves last.runtime × (spawns calls ≡ 1)
entries_spawn_once_example =
    entries_spawn_once ℕ false headers 99 entered (entered ∷ []) no_instances
