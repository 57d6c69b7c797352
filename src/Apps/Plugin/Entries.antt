-- ===== src/Apps/Plugin/Entries.antt =====
-- The entries of the plugin for FreeRDP, one after the other.
use rdp_ext.Common.{
  ℕ, suc, ◌+◌, ◌≡◌, refl, Bool, true, List, [], ◌∷◌, ◌++◌, Option, none, some, arith,
}
use rdp_ext.Transport.Mstsc.Registry.{Instances}
use rdp_ext.Transport.Mstsc.Freerdp.{Headers, EntryPointsEx}
use rdp_ext.Transport.Mstsc.Freerdp
use rdp_ext.Runtime.Executor.{spawn_worker}
use rdp_ext.Runtime.Executor
use rdp_ext.Runtime.MstscRuntime.{MstscRuntime, Call, of_transport, of_executor}
use rdp_ext.Runtime.MstscRuntime
use rdp_ext.Runtime.Defaults.{default_channel_name}
use rdp_ext.Apps.Plugin.{Plugin, Outcome, unused, get_runtime_instance, virtual_channel_entry_ex}
use rdp_ext.Logging.{make_log_sink}

-- What FreeRDP passes to an entry, and what `pVirtualChannelInitEx` answers.
pub record Entry : Type 0 where
  pub entry_points : Option EntryPointsEx
  pub init_handle : ℕ
  pub rc : ℕ

-- The runtime is made, its executor is started and it has the handlers of a controller.
abbrev pub Serves : Option MstscRuntime → Type 0
Serves none = ⊥
Serves (some r) =
    (r.executor.started ≡ true)
    × (r.transport.channel_name ≡ default_channel_name)
    × (r.transport.has_connected_handler ≡ true)
    × (r.transport.has_disconnected_handler ≡ true)
    × (r.transport.has_bytes_handler ≡ true)

module _ {Task : Type 0} where
  abbrev pub spawns : List (Call Task) → ℕ
  spawns [] = 0
  spawns (of_executor spawn_worker ∷ cs) = suc (spawns cs)
  spawns (_ ∷ cs) = spawns cs

  spawns-append : (xs ys : List (Call Task)) → spawns (xs ++ ys) ≡ spawns xs + spawns ys
  spawns-append [] ys = omega arith
  spawns-append (x ∷ xs) ys = ground (arith, spawns-append xs ys)

module _ (Task : Type 0) (windows : Bool) (headers : Headers) (this : ℕ) where
  unfoldable pub entries : Plugin → Instances → List Entry → Plugin × List (Call Task)
  entries p instances [] = (p, [])
  entries p instances (e ∷ es) =
      let first : Outcome Task =
        virtual_channel_entry_ex windows headers this p instances e.entry_points e.init_handle
          e.rc in
      let (last, calls) = entries first.plugin first.instances es in (last, first.calls ++ calls)

  first_entry :
      (e : Entry) (instances : Instances)
      → let o =
          virtual_channel_entry_ex {Task = Task} windows headers this unused instances
            e.entry_points e.init_handle e.rc in
        Serves o.plugin.runtime × (spawns o.calls ≡ 1)
  unfolding virtual_channel_entry_ex get_runtime_instance MstscRuntime.entry_ex Executor.start
      Freerdp.virtual_channel_entry_ex make_log_sink
  first_entry e instances = ground arith

  later_entry :
      (e : Entry) (p : Plugin) (runtime : Option MstscRuntime) (instances : Instances)
      → p.runtime ≡ runtime
      → Serves runtime
      → let o =
          virtual_channel_entry_ex {Task = Task} windows headers this p instances e.entry_points
            e.init_handle e.rc in
        Serves o.plugin.runtime × (spawns o.calls ≡ 0)
  unfolding virtual_channel_entry_ex get_runtime_instance MstscRuntime.entry_ex Executor.start
      Freerdp.virtual_channel_entry_ex make_log_sink
  later_entry e p (some r) instances same s = ground arith
  later_entry e p none instances same s = absurd s

  later_entries :
      (es : List Entry) (p : Plugin) (instances : Instances)
      → Serves p.runtime
      → let (last, calls) = entries p instances es in Serves last.runtime × (spawns calls ≡ 0)
  unfolding entries
  later_entries [] p instances s = (s, refl)
  later_entries (e ∷ es) p instances s =
      let o =
        virtual_channel_entry_ex {Task = Task} windows headers this p instances e.entry_points
          e.init_handle e.rc in
      let (s₁, n₁) = later_entry e p p.runtime instances refl s in
      let (s₂, n₂) = later_entries es o.plugin o.instances s₁ in
      (s₂, omega (arith, n₁, n₂, spawns-append o.calls (entries o.plugin o.instances es).1))

  -- However often FreeRDP enters the plugin, whatever it passes and answers: from the first entry on there is a
  -- runtime for the default channel, with a started executor and the three handlers of its transport, and one
  -- worker is spawned in all.
  pub entries_spawn_once :
      (e : Entry) (es : List Entry) (instances : Instances)
      → let (last, calls) = entries unused instances (e ∷ es) in
        Serves last.runtime × (spawns calls ≡ 1)
  unfolding entries
  entries_spawn_once e es instances =
      let o =
        virtual_channel_entry_ex {Task = Task} windows headers this unused instances e.entry_points
          e.init_handle e.rc in
      let (s₁, n₁) = first_entry e instances in
      let (s₂, n₂) = later_entries es o.plugin o.instances s₁ in
      (s₂, omega (arith, n₁, n₂, spawns-append o.calls (entries o.plugin o.instances es).1))
