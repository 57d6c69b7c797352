-- ===== src/Tests/Executor.antt =====
-- runtime at concrete inputs. A task is its number.
use rdp_ext.Common.{arith, Bool, ◌++◌, ℕ, ◌≡◌, ◌≢◌, refl, inl, true, false, List, [], ◌∷◌, none}
use rdp_ext.Common.Text.{text}
use rdp_ext.Transport.Wts
use rdp_ext.Transport.ChannelHandle.{null, empty}
use rdp_ext.Transport.Wts.Reading.{
  Interference, finished, Answer, quiet, stops as stopping_thread, failed,
}
use rdp_ext.Runtime.Executor.{
  Executor, initial, start, post, post_to_strand, RunEnd, run_returned, run_threw, worker_loop,
  stop, register_timer, cancel_all_timers,
}
use rdp_ext.Runtime.Executor.Stopping.{cancelled, stop_silences}
use rdp_ext.Runtime.Executor.Sweep.{
  Threads, IsFresh, HasCalled, before, sweeping, swept, ended, entered, is_worker, register, enter,
  enter_worker, claim, sweep, working as in_task, stop_claim, Reach, here, next, no_timer_survives,
}
use rdp_ext.Runtime.Executor.Sweep.Ending.{stop_completes}
use rdp_ext.Runtime.Executor.Restart.{
  is_stopped, restart_never_runs, start_claim, start_rest, start_overtaken,
}
use rdp_ext.Runtime.WtsRuntime.{WtsRuntime}
use rdp_ext.Runtime.WtsRuntime.Stopping.{run_stops_both}
use rdp_ext.Runtime.WtsRuntime

abbrev working : Executor
working = record { started = true; stopping = false; worker_joinable = true; timers = 11 ∷ 12 ∷ [] }

stop_silences_example : cancelled (stop {Task = ℕ} false working).1 ≡ 11 ∷ 12 ∷ []
stop_silences_example = (stop_silences {Task = ℕ} working false true false 13 7 refl refl).0

-- Two threads and the worker come to the exchange at once; a thread registers timer 13 behind it.
abbrev idle : Threads ℕ
idle = record { executor = working; stop_phase = before; waiting = 0; worker = in_task; calls = [] }

abbrev two : Threads ℕ
two = record idle { waiting = 2; worker = entered }

abbrev raised : Threads ℕ
raised = record {
  executor = record working { stopping = true };
  stop_phase = sweeping;
  waiting = 1;
  worker = entered;
  calls = [];
}

abbrev emptied : Threads ℕ
emptied = record {
  executor = record { started = true; stopping = true; worker_joinable = true; timers = [] };
  stop_phase = swept;
  waiting = 1;
  worker = entered;
  calls = [];
}

idle-IsFresh : IsFresh idle
idle-IsFresh = record { phase = refl; running = refl; uncalled = refl; outside = refl }

swept_reached : Reach idle emptied
unfolding register_timer cancel_all_timers stop_claim
swept_reached =
    let both : Reach idle two =
      next
        (next {v = record idle { waiting = 2 }}
          (next {v = record idle { waiting = 1 }} here (enter refl refl)) (enter refl refl))
        (enter_worker refl refl refl) in
    let one : Reach idle raised = next both (claim 1 refl refl refl) in
    next (next {v = raised} one (register 13 refl)) (sweep refl refl)

no_timer_survives_example : emptied.executor.timers ≡ []
no_timer_survives_example =
    no_timer_survives idle-IsFresh swept_reached (ground arith) (ground arith)

stop_completes_example :
    (v : Threads ℕ) × Reach emptied v
    × (v.stop_phase ≡ ended)
    × (v.waiting ≡ 0)
    × (v.worker ≢ entered)
    × (is_worker v.worker ≡ false)
    × (v.executor.started ≡ false)
    × (v.executor.timers ≡ [])
    × HasCalled ended v.calls
stop_completes_example = stop_completes idle-IsFresh swept_reached (inl (ground arith))

abbrev server : WtsRuntime
server = record { transport = Wts.initial; executor = initial }

abbrev no_channel : Answer
no_channel = record {
  to_open = record {
    channel = null;
    query = record { ok = false; buffer = none; bytes_returned = 0 };
  };
  to_read = failed;
}

abbrev rounds : List (Interference × Answer)
rounds = (quiet, no_channel) ∷ (stopping_thread, no_channel) ∷ []

run_stops_both_example :
    let (stopped, phase, calls) = WtsRuntime.run {Task = ℕ} server rounds in
    (phase ≡ finished)
    × (stopped.transport.running ≡ false)
    × (stopped.transport.channel ≡ empty)
    × (stopped.executor.started ≡ false)
    × (post {Task = ℕ} stopped.executor 7 ≡ [])
run_stops_both_example =
    run_stops_both server rounds 7 (record { exclusive = inl refl; swept = inl refl }) refl

-- What asio documents of `run`; on a context that is not stopped, it is said to throw once.
abbrev run_ends : Bool → List RunEnd
run_ends true = run_returned ∷ []
run_ends false = run_threw (text "bad") ∷ run_returned ∷ []

restart_never_runs_example :
    let (stopped, calls) = stop {Task = ℕ} false working in
    let (again, more) = start {Task = ℕ} stopped in
    (again.started ≡ true)
    × (again.stopping ≡ false)
    × (post {Task = ℕ} again 7 ≡ post_to_strand 7 ∷ [])
    × (worker_loop (run_ends (is_stopped false (calls ++ more))) ≡ ([], true))
restart_never_runs_example = restart_never_runs {Task = ℕ} run_ends working false 7 refl refl refl

start_overtaken_example :
    let (claimed, won) = start_claim initial in
    let (stopped, cancels) = stop {Task = ℕ} false claimed in
    let (late, calls) = start_rest {Task = ℕ} stopped in
    (won ≡ true)
    × (late.worker_joinable ≡ true)
    × (post {Task = ℕ} late 7 ≡ post_to_strand 7 ∷ [])
    × (stop {Task = ℕ} false late ≡ (late, []))
start_overtaken_example = start_overtaken {Task = ℕ} initial false false 7 refl refl
