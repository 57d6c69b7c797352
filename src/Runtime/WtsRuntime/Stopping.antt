-- ===== src/Runtime/WtsRuntime/Stopping.antt =====
-- What the end of `run` leaves.
use rdp_ext.Common.{◌≡◌, true, false, refl, List, [], arith}
use rdp_ext.Transport.ChannelHandle.{empty}
use rdp_ext.Transport.Wts
use rdp_ext.Transport.Wts.Reading.{Answer, Interference, Phase, opening, finished}
use rdp_ext.Transport.Wts.Reading
use rdp_ext.Transport.Wts.Reading.Ending.{asks_stop, turns_end}
use rdp_ext.Runtime.Executor
use rdp_ext.Runtime.Executor.Stopping.{Inv, stop-start}
use rdp_ext.Runtime.WtsRuntime.{WtsRuntime, run, start, stop}

module _ {Task : Type 0} where
  -- Where another thread stops the transport, `run` of a runtime whose executor is not both started and
  -- stopping comes to its end, whatever the system answers, and neither part goes on: the transport is
  -- stopped and its channel closed, and the executor takes no task.
  pub run_stops_both :
      (r : WtsRuntime) (rounds : List (Interference × Answer)) (task : Task)
      → Inv r.executor
      → asks_stop rounds ≡ true
      → let (stopped, phase, calls) = run {Task = Task} r rounds in
        (phase ≡ finished)
        × (stopped.transport.running ≡ false)
        × (stopped.transport.channel ≡ empty)
        × (stopped.executor.started ≡ false)
        × (Executor.post stopped.executor task ≡ [])
  unfolding run start stop Wts.Reading.run Wts.stop Executor.post
  run_stops_both r rounds task v a =
      let (ended, stopping) = stop-start Task r.executor false v in
      let over =
        turns_end rounds (record (r.transport) { running = true }) opening refl (λ e. cc) a in
      ground arith
