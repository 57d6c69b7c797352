-- ===== src/Runtime/MstscRuntime.antt =====
-- src/runtime/mstsc_runtime.cpp: the client's end, in a plugin.
pub mod Serving
pub mod Working
use rdp_ext.Common.{ℕ, Bool, false, List, ◌++◌, map, Option}
use rdp_ext.Common.Text.{Text}
use rdp_ext.Transport.Mstsc.{MstscTransport, InitAnswer, virtual_channel_entry}
use rdp_ext.Transport.Mstsc
use rdp_ext.Transport.Mstsc.Registry.{Instances}
use rdp_ext.Transport.Mstsc.Freerdp.{Headers, EntryPointsEx, virtual_channel_entry_ex}
use rdp_ext.Runtime.Executor.{Executor}
use rdp_ext.Runtime.Executor

pub record MstscRuntime : Type 0 where
  pub transport : MstscTransport
  pub executor : Executor

pub data Call (Task : Type 0) : Type 0 where
  of_transport : Mstsc.Call → Call Task
  of_executor : Executor.Call Task → Call Task

module _ {Task : Type 0} where
  unfoldable pub start : MstscRuntime → MstscRuntime × List (Call Task)
  start r =
      let (executor, calls) = Executor.start {Task = Task} r.executor in
      (record r { executor = executor }, map of_executor calls)

  unfoldable pub stop : Bool → MstscRuntime → MstscRuntime × List (Call Task)
  stop on_worker r =
      let (executor, calls) = Executor.stop {Task = Task} on_worker r.executor in
      (record r { executor = executor }, map of_executor calls)

  -- `~MstscRuntime`, and the destructor of its executor.
  unfoldable pub destroy : MstscRuntime → MstscRuntime × List (Call Task)
  unfolding stop
  destroy r =
      let (stopped, calls) = stop false r in
      let (executor, again) = Executor.destroy {Task = Task} stopped.executor in
      (record stopped { executor = executor }, calls ++ map of_executor again)

  -- The entry of the plugin for mstsc.
  unfoldable pub entry :
      ℕ
      → ℕ
      → MstscRuntime
      → Instances
      → Option ℕ
      → InitAnswer
      → MstscRuntime × Instances × List (Call Task) × Bool
  unfolding start
  entry sizeof_entry_points this r instances entry_points answer =
      let (started, before) = start r in
      let (transport, registered, calls, accepted) =
        virtual_channel_entry sizeof_entry_points this started.transport instances entry_points
          answer in
      (
        record started { transport = transport },
        registered,
        before ++ map of_transport calls,
        accepted,
      )

  -- The entry of the plugin for FreeRDP.
  unfoldable pub entry_ex :
      Headers
      → ℕ
      → MstscRuntime
      → Instances
      → Option EntryPointsEx
      → ℕ
      → ℕ
      → MstscRuntime × Instances × List (Call Task) × Bool
  unfolding start
  entry_ex headers this r instances entry_points init_handle rc =
      let (started, before) = start r in
      let (transport, registered, calls, accepted) =
        virtual_channel_entry_ex headers this started.transport instances entry_points init_handle
          rc in
      (
        record started { transport = transport },
        registered,
        before ++ map of_transport calls,
        accepted,
      )

-- The controller's constructor, which gives its handlers to the transport.
unfoldable pub link_handlers : MstscTransport → MstscTransport
unfolding Mstsc.set_connected_handler Mstsc.set_disconnected_handler Mstsc.set_bytes_handler
link_handlers t =
    Mstsc.set_bytes_handler (Mstsc.set_disconnected_handler (Mstsc.set_connected_handler t))

-- The constructor: the controller is the last member.
unfoldable pub make : Text → MstscRuntime
unfolding link_handlers
make channel_name = record {
  transport = link_handlers (Mstsc.new channel_name);
  executor = Executor.initial;
}
