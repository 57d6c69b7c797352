-- ===== src/Runtime/Executor.antt =====
-- src/runtime/executor.cpp. Calls of boost::asio and of the worker thread are the entries of `calls`; the
-- handlers that asio runs later are functions of their own. Each function is one call that no other
-- thread interleaves; `Sweep` takes `schedule` and `stop` apart into their atomic steps, `Restart` `start`.
pub mod Stopping
pub mod Sweep
pub mod Worker
pub mod Restart
pub mod Queue
use rdp_ext.Common.{
  ℕ, ◌==◌, Bool, true, false, not, ◌&&◌, ◌||◌, List, [], ◌∷◌, ◌++◌, map, Option, none, some,
  if◌then◌else◌,
}
use rdp_ext.Common.Text.{Text, text}
use rdp_ext.Logging.{Logger, LogRecord, make_logger, log_error}

-- `timers_` holds the addresses of the timers; `worker_joinable` is that of `worker_`.
pub record Executor : Type 0 where
  pub started : Bool
  pub stopping : Bool
  pub worker_joinable : Bool
  pub timers : List ℕ

abbrev pub initial : Executor
initial = record { started = false; stopping = false; worker_joinable = false; timers = [] }

unfoldable pub logger : Logger
logger = make_logger (text "runtime-executor")

pub data Call (Task : Type 0) : Type 0 where
  post_to_strand : Task → Call Task
  async_wait : ℕ → Task → Call Task
  cancel_timer : ℕ → Call Task
  reset_guard stop_context spawn_worker join_worker : Call Task

-- `timers_.insert`, `timers_.erase`.
unfoldable pub insert : ℕ → List ℕ → List ℕ
insert timer [] = timer ∷ []
insert timer (t ∷ ts) = if t == timer then t ∷ ts else t ∷ insert timer ts

unfoldable pub erase : ℕ → List ℕ → List ℕ
erase timer [] = []
erase timer (t ∷ ts) = let rest = erase timer ts in if t == timer then rest else t ∷ rest

-- Whether the timer was registered.
unfoldable pub register_timer : Executor → ℕ → Executor × Bool
register_timer e timer =
    if e.stopping then (e, false) else (record e { timers = insert timer e.timers }, true)

unfoldable pub unregister_timer : Executor → ℕ → Executor
unregister_timer e timer = record e { timers = erase timer e.timers }

module _ {Task : Type 0} where
  unfoldable pub cancel_all_timers : Executor → Executor × List (Call Task)
  cancel_all_timers e = (record e { timers = [] }, map cancel_timer e.timers)

  unfoldable pub start : Executor → Executor × List (Call Task)
  start e = if e.started then (e, []) else (
    record e { started = true; stopping = false; worker_joinable = true },
    spawn_worker ∷ [],
  )

  -- The flag says whether the caller is the worker itself.
  unfoldable pub stop : Bool → Executor → Executor × List (Call Task)
  unfolding cancel_all_timers
  stop on_worker e =
      if not e.started
      then (e, [])
      else (if e.stopping
          then (e, [])
          else (let stopping_executor = record e { stopping = true } in
              let (swept, cancels) = cancel_all_timers stopping_executor in
              let joins = swept.worker_joinable && not on_worker in
              (
                record swept {
                  started = false;
                  worker_joinable = if joins then false else swept.worker_joinable;
                },
                cancels ++ reset_guard ∷ stop_context ∷ (if joins then join_worker ∷ [] else []),
              )))

  -- `~Executor`, and the destructor of its member `worker_`, which joins; no task of the executor calls it.
  unfoldable pub destroy : Executor → Executor × List (Call Task)
  unfolding stop
  destroy e =
      let (stopped, calls) = stop false e in
      (
        record stopped { worker_joinable = false },
        calls ++ (if stopped.worker_joinable then join_worker ∷ [] else []),
      )

  unfoldable pub post : Executor → Task → List (Call Task)
  post e task = if e.stopping then [] else post_to_strand task ∷ []

  -- The handler that `post` gives to the strand: the task that it executes, if any.
  unfoldable pub run_posted : Executor → Task → Option Task
  run_posted e task = if e.stopping then none else some task

  -- `timer` is the address of the timer that the call makes.
  unfoldable pub schedule : Executor → ℕ → Task → Executor × List (Call Task)
  unfolding register_timer
  schedule e timer task =
      if e.stopping
      then (e, [])
      else (let (registered, done) = register_timer e timer in
          if not done then (registered, []) else (registered, async_wait timer task ∷ []))

  -- The handler of `async_wait`; the flag says whether asio reports an error, as for a cancelled timer.
  unfoldable pub timer_done : Executor → ℕ → Bool → Task → Executor × Option Task
  unfolding unregister_timer
  timer_done e timer error task =
      (unregister_timer e timer, if error || e.stopping then none else some task)

-- How a task ends.
pub data TaskEnd : Type 0 where
  finished : TaskEnd
  std_exception : Text → TaskEnd
  other_exception : TaskEnd

-- What `executeTask` logs; only an exception that is no std::exception passes through.
unfoldable pub execute_task : TaskEnd → List LogRecord × Bool
execute_task finished = ([], false)
execute_task (std_exception what) =
    (log_error logger (text "Execution failed with exception, message: " ++ what) ∷ [], false)
execute_task other_exception = ([], true)

-- How a call of `context_.run()` ends.
pub data RunEnd : Type 0 where
  run_returned : RunEnd
  run_threw : Text → RunEnd
  run_threw_unknown : RunEnd

unfoldable pub log_run : RunEnd → List LogRecord
log_run run_returned = []
log_run (run_threw what) = log_error logger (text "Unhandled exception in executor: " ++ what) ∷ []
log_run run_threw_unknown = log_error logger (text "Unhandled unknown exception in executor") ∷ []

-- The loop over the ends of its calls of `run`: the log, and whether the loop ended.
unfoldable pub worker_loop : List RunEnd → List LogRecord × Bool
worker_loop [] = ([], false)
worker_loop (run_returned ∷ ends) = ([], true)
worker_loop (run_threw what ∷ ends) =
    let (logs, ended) = worker_loop ends in (log_run (run_threw what) ++ logs, ended)
worker_loop (run_threw_unknown ∷ ends) =
    let (logs, ended) = worker_loop ends in (log_run run_threw_unknown ++ logs, ended)
