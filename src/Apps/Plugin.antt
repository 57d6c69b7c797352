-- ===== src/Apps/Plugin.antt =====
-- src/apps/mstsc_plugin/main.cpp and src/apps/freerdp_plugin/main.cpp. The two static objects of a plugin are made
-- at the first call that needs them; one whose constructor throws is not made.
pub mod Entries
use rdp_ext.Common.{ℕ, Bool, List, [], Option, none, some}
use rdp_ext.Common.Except.{Except, returned, thrown}
use rdp_ext.Logging.{LogSink, LogOutput, console, windows_debug, LogLevel, debug, make_log_sink}
use rdp_ext.Transport.Mstsc.{InitAnswer}
use rdp_ext.Transport.Mstsc.Registry.{Instances}
use rdp_ext.Transport.Mstsc.Freerdp.{Headers, EntryPointsEx}
use rdp_ext.Runtime.MstscRuntime.{MstscRuntime, Call}
use rdp_ext.Runtime.MstscRuntime
use rdp_ext.Runtime.Defaults.{default_channel_name}

abbrev pub default_log_level : LogLevel
default_log_level = debug

-- `none` for an object that is not made yet.
pub record Plugin : Type 0 where
  pub sink : Option LogSink
  pub runtime : Option MstscRuntime

abbrev pub unused : Plugin
unused = record { sink = none; runtime = none }

keep_sink : Plugin → Except LogSink → Plugin × Except LogSink
keep_sink p (returned sink) = (record p { sink = some sink }, returned sink)
keep_sink p (thrown what) = (p, thrown what)

sink_of : Bool → LogOutput → Plugin → Option LogSink → Plugin × Except LogSink
unfolding keep_sink make_log_sink
sink_of windows output p (some sink) = (p, returned sink)
sink_of windows output p none = keep_sink p (make_log_sink windows default_log_level output)

unfoldable pub get_log_sink_instance : Bool → LogOutput → Plugin → Plugin × Except LogSink
unfolding sink_of
get_log_sink_instance windows output p = sink_of windows output p p.sink

-- The runtime is made behind the sink that its constructor is given.
make_runtime : Plugin × Except LogSink → Plugin × Except MstscRuntime
unfolding MstscRuntime.make default_channel_name
make_runtime (p, returned sink) =
    let runtime = MstscRuntime.make default_channel_name in
    (record p { runtime = some runtime }, returned runtime)
make_runtime (p, thrown what) = (p, thrown what)

runtime_of : Bool → LogOutput → Plugin → Option MstscRuntime → Plugin × Except MstscRuntime
unfolding make_runtime get_log_sink_instance
runtime_of windows output p (some runtime) = (p, returned runtime)
runtime_of windows output p none = make_runtime (get_log_sink_instance windows output p)

unfoldable pub get_runtime_instance : Bool → LogOutput → Plugin → Plugin × Except MstscRuntime
unfolding runtime_of
get_runtime_instance windows output p = runtime_of windows output p p.runtime

-- `getRuntimeInstance` of the plugin for FreeRDP, which differs by the output alone.
abbrev freerdp_runtime_instance : Bool → Plugin → Plugin × Except MstscRuntime
freerdp_runtime_instance windows p = get_runtime_instance windows console p

-- What an entry leaves: the plugin, the registered instances, the calls, and what it returns.
pub record Outcome (Task : Type 0) : Type 0 where
  pub plugin : Plugin
  pub instances : Instances
  pub calls : List (Call Task)
  pub result : Except Bool

module _ {Task : Type 0} where
  enter :
      Plugin × Except MstscRuntime
      → Instances
      → (MstscRuntime → MstscRuntime × Instances × List (Call Task) × Bool)
      → Outcome Task
  enter (p, thrown what) instances entry = record {
    plugin = p;
    instances = instances;
    calls = [];
    result = thrown what;
  }
  enter (p, returned runtime) instances entry =
      let (entered, registered, calls, accepted) = entry runtime in
      record {
        plugin = record p { runtime = some entered };
        instances = registered;
        calls = calls;
        result = returned accepted;
      }

  -- `VirtualChannelEntry` of the plugin for mstsc; the flag says whether `_WIN32` is defined.
  unfoldable pub virtual_channel_entry :
      Bool → ℕ → ℕ → Plugin → Instances → Option ℕ → InitAnswer → Outcome Task
  unfolding enter
  virtual_channel_entry windows sizeof_entry_points this p instances entry_points answer =
      enter (get_runtime_instance windows windows_debug p) instances (λ runtime.
        MstscRuntime.entry sizeof_entry_points this runtime instances entry_points answer)

  -- `VirtualChannelEntryEx` of the plugin for FreeRDP.
  unfoldable pub virtual_channel_entry_ex :
      Bool → Headers → ℕ → Plugin → Instances → Option EntryPointsEx → ℕ → ℕ → Outcome Task
  unfolding enter
  virtual_channel_entry_ex windows headers this p instances entry_points init_handle rc =
      enter (freerdp_runtime_instance windows p) instances (λ runtime.
        MstscRuntime.entry_ex headers this runtime instances entry_points init_handle rc)
