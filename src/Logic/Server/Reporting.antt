-- ===== src/Logic/Server/Reporting.antt =====
-- The server's end as src/runtime/wts_runtime.h puts it together: the controller, its state machine, the
-- telemetry timer (src/core/telemetry/timer_control.h) and the tasks and callbacks that the executor holds.
pub mod Switching
pub mod Delivery
pub mod Readable
pub mod Traces
pub mod Refinement
pub mod Requests
pub mod Crossing
use rdp_ext.Common.{true, ℕ, zero, suc, ◌+◌, List, [], ◌∷◌, ◌++◌}
use rdp_ext.Protocol.Serializer.{Archive, Buffer}
use rdp_ext.Telemetry.Sampler.{Sampler}
use rdp_ext.Telemetry.Timer.{TimerControl, schedule_post_sample, handle_sample}
use rdp_ext.Telemetry.Timer
use rdp_ext.Telemetry.Timer.Chains.{scheduled}
use rdp_ext.Logic.Base.{Ambient}
use rdp_ext.Logic.Server.{ServerState, initial}
use rdp_ext.Logic.Server.Controller.{
  Task, Call, TaskOutcome, on_sample, on_connected, on_disconnected, on_bytes, telemetry_start,
  telemetry_stop, run_task,
}
use rdp_ext.Logic.Server.Controller.Strand.{posts, sent}

-- What the telemetry's calls post: the handler that `linkHandlers` sets posts each sample.
abbrev pub sample_posts : List Timer.Call → List Task
sample_posts [] = []
sample_posts (handle_sample sample ∷ cs) = posts (on_sample sample) ++ sample_posts cs
sample_posts (schedule_post_sample delay ∷ cs) = sample_posts cs

module _ (sampler : Sampler) where
  pub record Process : Type 0 where
    pub machine : ServerState
    pub timer : TimerControl sampler
    pub strand : List Task
    -- the callbacks that the executor holds for the timer
    pub callbacks : ℕ
    -- what the transport was given
    pub delivered : List Buffer

  -- The timer after the calls of a task, and the callbacks that they scheduled.
  unfoldable pub drive : sampler.Input → TimerControl sampler → List Call → TimerControl sampler × ℕ
  drive input t [] = (t, 0)
  drive input t (telemetry_start ∷ cs) =
      let begun = Timer.start sampler t input in
      let (last, more) = drive input begun.timer cs in (last, scheduled begun.calls + more)
  drive input t (telemetry_stop ∷ cs) = drive input (Timer.stop sampler t) cs
  drive input t (_ ∷ cs) = drive input t cs

  pub data Event : Type 0 where
    -- the strand runs its first task; the input is what a reset of the sampler is given
    runs : Ambient → sampler.Input → Event
    -- the transport calls a handler
    connects disconnects : Event
    receives : Buffer → Event
    -- a callback of the timer runs
    fires : sampler.Input → Event

  -- A process behind a task: `rest` stood behind it.
  unfoldable pub after_task : Process → List Task → sampler.Input → TaskOutcome → Process
  unfolding drive
  after_task p rest input r =
      let (timer, more) = drive input p.timer r.calls in
      record {
        machine = r.state;
        timer = timer;
        strand = rest ++ posts r.calls;
        callbacks = p.callbacks + more;
        delivered = p.delivered ++ sent r.calls;
      }

  module _ (archive : Archive) where
    unfoldable pub run_first : Process → List Task → Ambient → sampler.Input → Process
    unfolding after_task
    run_first p [] a input = p
    run_first p (task ∷ rest) a input =
        after_task p rest input
          (run_task archive (Timer.start sampler p.timer input).result a p.machine task)

    unfoldable pub fire : Process → ℕ → sampler.Input → Process
    fire p zero input = p
    fire p (suc left) input =
        let fired = Timer.post_sample sampler p.timer input in
        record p {
          timer = fired.timer;
          strand = p.strand ++ sample_posts fired.calls;
          callbacks = left + scheduled fired.calls;
        }

    unfoldable pub advance : Process → Event → Process
    unfolding run_first fire
    advance p (runs a input) = run_first p p.strand a input
    advance p connects = record p { strand = p.strand ++ posts on_connected }
    advance p disconnects = record p { strand = p.strand ++ posts on_disconnected }
    advance p (receives bytes) = record p { strand = p.strand ++ posts (on_bytes bytes) }
    advance p (fires input) = fire p p.callbacks input

    unfoldable pub run : Process → List Event → Process
    run p [] = p
    run p (e ∷ es) = run (advance p e) es

  -- A new process, whose controller has set the sample handler.
  abbrev pub new : Process
  new = record {
    machine = initial;
    timer = record (Timer.initial sampler) { has_sample_handler = true };
    strand = [];
    callbacks = 0;
    delivered = [];
  }
