-- ===== src/Runtime/WtsRuntime/Working.antt =====
-- The server's process on its executor, as src/runtime/wts_runtime.h puts them together: the controller's posts go
-- through `Executor::post`, the timer's callbacks through `Executor::schedule`, and the worker runs the handlers that
-- asio's strand holds (src/runtime/executor.cpp). A post and a schedule are one step each. A timer's handler gets to the
-- strand when the timer expires, in any order of the timers; asio reports an error only behind a stop.
pub mod Jobs
pub mod Moves
pub mod Turns
pub mod Refinement
use rdp_ext.Common.{true, ℕ, zero, suc, Bool, ◌&&◌, List, [], ◌∷◌, ◌++◌, Option, none, some}
use rdp_ext.Protocol.Serializer.{Archive, Buffer}
use rdp_ext.Telemetry.Sampler.{Sampler}
use rdp_ext.Telemetry.Timer.{TimerControl, schedule_post_sample, handle_sample}
use rdp_ext.Telemetry.Timer
use rdp_ext.Runtime.Executor.{Executor, Call, post_to_strand, async_wait, post, schedule, stop}
use rdp_ext.Runtime.Executor
use rdp_ext.Runtime.Executor.Queue.{Handler, posted, waited, handle}
use rdp_ext.Logic.Base.{Ambient}
use rdp_ext.Logic.Server.{ServerState, initial}
use rdp_ext.Logic.Server.Controller.{
  Task, TaskOutcome, on_connected, on_disconnected, on_bytes, telemetry_start, telemetry_stop,
  run_task,
}
use rdp_ext.Logic.Server.Controller
use rdp_ext.Logic.Server.Controller.Strand.{posts, sent}
use rdp_ext.Logic.Server.Reporting.{sample_posts}

-- What the executor runs: a task of the controller, or `postSample` of the timer.
pub data Job : Type 0 where
  of_controller : Task → Job
  sample : Job

abbrev pub pushed : List (Call Job) → List (Handler Job)
pushed [] = []
pushed (post_to_strand job ∷ cs) = posted job ∷ pushed cs
pushed (_ ∷ cs) = pushed cs

abbrev pub awaited : List (Call Job) → List ℕ
awaited [] = []
awaited (async_wait timer job ∷ cs) = timer ∷ awaited cs
awaited (_ ∷ cs) = awaited cs

-- What the strand gets where these tasks are posted, one after the other.
unfoldable pub post_all : Executor → List Task → List (Handler Job)
post_all e [] = []
post_all e (task ∷ tasks) = pushed (post e (of_controller task)) ++ post_all e tasks

-- The executor behind the timer's calls, and the timers that wait; `address` is that of each.
unfoldable pub schedule_all : Executor → ℕ → List Timer.Call → Executor × List ℕ
schedule_all e address [] = (e, [])
schedule_all e address (handle_sample s ∷ cs) = schedule_all e address cs
schedule_all e address (schedule_post_sample delay ∷ cs) =
    let (registered, calls) = schedule e address sample in
    let (last, more) = schedule_all registered address cs in (last, awaited calls ++ more)

abbrev pub behind : ℕ → Option (ℕ × List ℕ) → Option (ℕ × List ℕ)
behind timer none = none
behind timer (some (one, others)) = some (one, timer ∷ others)

-- The n-th timer expires: its address, and the others.
abbrev pub expired : ℕ → List ℕ → Option (ℕ × List ℕ)
expired n [] = none
expired zero (timer ∷ timers) = some (timer, timers)
expired (suc n) (timer ∷ timers) = behind timer (expired n timers)

module _ (sampler : Sampler) where
  pub record Worker : Type 0 where
    pub executor : Executor
    pub machine : ServerState
    pub timer : TimerControl sampler
    -- what asio's strand holds
    pub queue : List (Handler Job)
    -- the timers that wait
    pub waits : List ℕ
    pub delivered : List Buffer

  pub data Event : Type 0 where
    -- the worker runs the first handler; the input of the sampler, and the address of a timer that it makes
    works : Ambient → sampler.Input → ℕ → Event
    -- the transport calls a handler
    connects disconnects : Event
    receives : Buffer → Event
    -- a timer expires, or is cancelled
    expires : ℕ → Bool → Event
    -- `WtsRuntime::stop`, or a stop on the worker
    stops : Bool → Event

  -- The timer and the executor behind the telemetry's calls of a task, and the timers that wait.
  unfoldable pub drive :
      sampler.Input
      → ℕ
      → Executor
      → TimerControl sampler
      → List Controller.Call
      → Executor × TimerControl sampler × List ℕ
  drive input address e t [] = (e, t, [])
  drive input address e t (telemetry_start ∷ cs) =
      let begun = Timer.start sampler t input in
      let (scheduled, waits) = schedule_all e address begun.calls in
      let (last, timer, more) = drive input address scheduled begun.timer cs in
      (last, timer, waits ++ more)
  drive input address e t (telemetry_stop ∷ cs) = drive input address e (Timer.stop sampler t) cs
  drive input address e t (_ ∷ cs) = drive input address e t cs

  -- Behind a handler, which `rest` stood behind.
  unfoldable pub after_task :
      Worker → Executor → List (Handler Job) → sampler.Input → ℕ → TaskOutcome → Worker
  unfolding post_all drive
  after_task u e rest input address r =
      let (driven, timer, more) = drive input address e u.timer r.calls in
      record {
        executor = driven;
        machine = r.state;
        timer = timer;
        queue = rest ++ post_all e (posts r.calls);
        waits = u.waits ++ more;
        delivered = u.delivered ++ sent r.calls;
      }

  unfoldable pub after_sample :
      Worker → Executor → List (Handler Job) → ℕ → Timer.TimerOutcome sampler → Worker
  unfolding post_all schedule_all
  after_sample u e rest address fired =
      let (scheduled, more) = schedule_all e address fired.calls in
      record u {
        executor = scheduled;
        timer = fired.timer;
        queue = rest ++ post_all e (sample_posts fired.calls);
        waits = u.waits ++ more;
      }

  unfoldable pub expire : Worker → Option (ℕ × List ℕ) → Bool → Worker
  expire u none error = u
  expire u (some (timer, others)) error = record u {
    queue = u.queue ++ waited timer (error && u.executor.stopping) sample ∷ [];
    waits = others;
  }

  module _ (archive : Archive) where
    -- Behind the test of a handler.
    unfoldable pub execute :
        Worker → Executor → List (Handler Job) → Option Job → Ambient → sampler.Input → ℕ → Worker
    unfolding after_task after_sample
    execute u e rest none a input address = record u { executor = e; queue = rest }
    execute u e rest (some (of_controller task)) a input address =
        after_task u e rest input address
          (run_task archive (Timer.start sampler u.timer input).result a u.machine task)
    execute u e rest (some sample) a input address =
        after_sample u e rest address (Timer.post_sample sampler u.timer input)

    unfoldable pub work : Worker → List (Handler Job) → Ambient → sampler.Input → ℕ → Worker
    unfolding execute
    work u [] a input address = u
    work u (handler ∷ rest) a input address =
        let (e, job) = handle u.executor handler in execute u e rest job a input address

    unfoldable pub serve : Worker → Event → Worker
    unfolding work post_all expire
    serve u (works a input address) = work u u.queue a input address
    serve u connects = record u { queue = u.queue ++ post_all u.executor (posts on_connected) }
    serve u disconnects = record u {
      queue = u.queue ++ post_all u.executor (posts on_disconnected);
    }
    serve u (receives bytes) = record u {
      queue = u.queue ++ post_all u.executor (posts (on_bytes bytes));
    }
    serve u (expires n error) = expire u (expired n u.waits) error
    serve u (stops on_worker) = record u { executor = (stop {Task = Job} on_worker u.executor).0 }

    unfoldable pub serve_all : Worker → List Event → Worker
    serve_all u [] = u
    serve_all u (e ∷ es) = serve_all (serve u e) es

  -- Behind `WtsRuntime::start`; the controller has set the sample handler.
  unfoldable pub started : Worker
  unfolding Executor.start
  started = record {
    executor = (Executor.start {Task = Job} Executor.initial).0;
    machine = initial;
    timer = record (Timer.initial sampler) { has_sample_handler = true };
    queue = [];
    waits = [];
    delivered = [];
  }
