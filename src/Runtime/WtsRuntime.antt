-- ===== src/Runtime/WtsRuntime.antt =====
-- src/runtime/wts_runtime.cpp: the server's end. The runtime owns the transport and the executor; a turn of
-- the transport's loop is as in `Transport.Wts.Reading`.
pub mod Serving
pub mod Working
pub mod Stopping
use rdp_ext.Common.{false, List, [], ◌∷◌, ◌++◌, map, if◌then◌else◌}
use rdp_ext.Transport.Wts.{WtsTransport}
use rdp_ext.Transport.Wts
use rdp_ext.Transport.Wts.Reading.{Answer, Interference, Phase, finished}
use rdp_ext.Transport.Wts.Reading
use rdp_ext.Transport.ChannelHandle.{empty}
use rdp_ext.Transport.ChannelHandle
use rdp_ext.Runtime.Executor.{Executor, join_worker}
use rdp_ext.Runtime.Executor

pub record WtsRuntime : Type 0 where
  pub transport : WtsTransport
  pub executor : Executor

pub data Call (Task : Type 0) : Type 0 where
  of_transport : Wts.Call → Call Task
  of_executor : Executor.Call Task → Call Task

module _ {Task : Type 0} where
  unfoldable pub start : WtsRuntime → WtsRuntime × List (Call Task)
  start r =
      let (executor, calls) = Executor.start {Task = Task} r.executor in
      (record r { executor = executor }, map of_executor calls)

  -- No task of the executor calls it, so that the caller is not the worker.
  unfoldable pub stop : WtsRuntime → WtsRuntime × List (Call Task)
  stop r =
      let (executor, calls) = Executor.stop {Task = Task} false r.executor in
      (record { transport = Wts.stop r.transport; executor = executor }, map of_executor calls)

  -- Where the transport's loop does not end in these turns, `run` is still in it, and `stop` is not called.
  unfoldable pub run :
      WtsRuntime → List (Interference × Answer) → WtsRuntime × Phase × List (Call Task)
  unfolding start stop
  run r turns =
      let (started, before) = start r in
      let (transport, phase, calls) = Wts.Reading.run started.transport turns in
      let ran = record started { transport = transport } in
      elim phase [
        | finished ↦
            let (stopped, after) = stop ran in
            (stopped, finished, before ++ (map of_transport calls ++ after))
        | other ↦ (ran, other, before ++ map of_transport calls)
      ]

  -- `~WtsRuntime`, and the destructors of its members, the last member first: that of the executor, and that
  -- of the transport's channel.
  unfoldable pub destroy : WtsRuntime → WtsRuntime × List (Call Task)
  unfolding stop
  destroy r =
      let (stopped, calls) = stop r in
      let (executor, again) = Executor.destroy {Task = Task} stopped.executor in
      (
        record { transport = record (stopped.transport) { channel = empty }; executor = executor },
        calls
            ++ (map of_executor again
                ++ map (λ c. of_transport (Wts.os c))
                    (ChannelHandle.destroy stopped.transport.channel)),
      )

-- The constructor: the controller's, the last one, links the handlers of the transport.
unfoldable pub make : WtsRuntime
unfolding Wts.set_connected_handler Wts.set_disconnected_handler Wts.set_bytes_handler
make = record {
  transport =
      Wts.set_bytes_handler (Wts.set_disconnected_handler (Wts.set_connected_handler Wts.initial));
  executor = Executor.initial;
}
