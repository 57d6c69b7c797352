-- ===== src/Runtime/Executor/Queue.antt =====
-- src/runtime/executor.cpp: the tasks of an executor, from `post` and `schedule` to `executeTask`, with
-- any number of threads that post, schedule and stop. The strand of boost::asio runs its handlers one
-- at a time, in the order in which they were given to it, and a timer's handler gets an error only
-- where the timer was cancelled, which `cancelAllTimers` alone does. `post` has two steps, its test of
-- `stopping_` and the call of asio, and so has a handler: its test, and `executeTask`; a stop may fall
-- between. A handler is begun by a worker in `context_.run`, and behind `context_.stop` none is.
-- `Sweep` takes `schedule` apart.
pub mod Order
pub mod Draining
use rdp_ext.Common.{ℕ, ◌≡◌, ◌⊎◌, Bool, true, false, List, [], ◌∷◌, ◌++◌, Option, none, some}
use rdp_ext.Runtime.Executor.{
  Executor, initial, start, Call, spawn_worker, post_to_strand, async_wait, post, run_posted,
  schedule, timer_done, cancel_all_timers,
}
use rdp_ext.Runtime.Executor.Sweep.{stop_claim}

-- What asio's strand holds: the handler of a post, or that of a timer with its error.
pub data Handler (Task : Type 0) : Type 0 where
  posted : Task → Handler Task
  waited : ℕ → Bool → Task → Handler Task

module _ {Task : Type 0} where
  abbrev pub task_of : Handler Task → Task
  task_of (posted task) = task
  task_of (waited timer error task) = task

  -- The body of a handler: the executor behind it, and the task that it executes, if any.
  unfoldable pub handle : Executor → Handler Task → Executor × Option Task
  handle e (posted task) = (e, run_posted e task)
  handle e (waited timer error task) = timer_done e timer error task

pub record Strand (Task : Type 0) : Type 0 where
  pub executor : Executor
  -- the threads in `post` between the test and the call of asio
  pub passed : List Task
  -- the timers that wait
  pub waits : List (ℕ × Task)
  pub queue : List (Handler Task)
  -- the task whose handler passed its test and comes to `executeTask`, or is in it
  pub running : Option Task
  -- a thread is in `context_.run`, and `context_` is stopped
  pub has_worker : Bool
  pub is_stopped : Bool
  -- the tasks of all handlers that the strand got so far, those that were executed, and the others
  pub accepted : List Task
  pub executed : List Task
  pub skipped : List Task

module _ {Task : Type 0} where
  -- The strand can begin a handler.
  abbrev pub IsFree : Strand Task → Type 0
  IsFree t = (t.has_worker ≡ true) × (t.is_stopped ≡ false) × (t.running ≡ none)

  pub data Step (t u : Strand Task) : Type 0 where
    pass :
        (task : Task)
        → post t.executor task ≡ post_to_strand task ∷ []
        → u ≡ record t { passed = task ∷ t.passed }
        → Step t u
    push :
        (before after : List Task) (task : Task)
        → t.passed ≡ before ++ task ∷ after
        → u ≡ record t {
          passed = before ++ after;
          queue = t.queue ++ posted task ∷ [];
          accepted = t.accepted ++ task ∷ [];
        }
        → Step t u
    wait :
        (timer : ℕ) (task : Task)
        → (schedule t.executor timer task).1 ≡ async_wait timer task ∷ []
        → u ≡ record t {
          executor = (schedule t.executor timer task).0;
          waits = (timer, task) ∷ t.waits;
        }
        → Step t u
    fire :
        (before after : List (ℕ × Task)) (timer : ℕ) (error : Bool) (task : Task)
        → t.waits ≡ before ++ (timer, task) ∷ after
        → (error ≡ false) ⊎ (t.executor.stopping ≡ true)
        → u ≡ record t {
          waits = before ++ after;
          queue = t.queue ++ waited timer error task ∷ [];
          accepted = t.accepted ++ task ∷ [];
        }
        → Step t u
    test :
        (handler : Handler Task) (rest : List (Handler Task)) (task : Task)
        → IsFree t
        → t.queue ≡ handler ∷ rest
        → (handle t.executor handler).1 ≡ some task
        → u
          ≡ record t { executor = (handle t.executor handler).0; queue = rest; running = some task }
        → Step t u
    execute :
        (task : Task)
        → t.running ≡ some task
        → u ≡ record t { running = none; executed = t.executed ++ task ∷ [] }
        → Step t u
    skip :
        (handler : Handler Task) (rest : List (Handler Task))
        → IsFree t
        → t.queue ≡ handler ∷ rest
        → (handle t.executor handler).1 ≡ none
        → u ≡ record t {
          executor = (handle t.executor handler).0;
          queue = rest;
          skipped = t.skipped ++ task_of handler ∷ [];
        }
        → Step t u
    -- `stop`
    claim :
        (stop_claim t.executor).1 ≡ true
        → u ≡ record t { executor = (stop_claim t.executor).0 }
        → Step t u
    sweep :
        t.executor.stopping ≡ true
        → u ≡ record t { executor = (cancel_all_timers {Task = Task} t.executor).0 }
        → Step t u
    halt : t.executor.stopping ≡ true → u ≡ record t { is_stopped = true } → Step t u
    -- `context_.run` returns: behind `context_.stop`, or without work once `guard_` is reset
    depart :
        t.executor.stopping ≡ true
        → t.running ≡ none
        → u ≡ record t { has_worker = false }
        → Step t u

  pub data Reach (t : Strand Task) : Strand Task → Type 0 where
    here : Reach t t
    next : {u v : Strand Task} → Reach t u → Step u v → Reach t v

  -- An executor that has no task yet; the flags say whether it has a worker, and whether its context is stopped.
  abbrev pub fresh : Executor → Bool → Bool → Strand Task
  fresh e has_worker is_stopped = record {
    executor = e;
    running = none;
    has_worker = has_worker;
    is_stopped = is_stopped;
    passed = [];
    waits = [];
    queue = [];
    accepted = [];
    executed = [];
    skipped = [];
  }

  abbrev pub spawns : List (Call Task) → Bool
  spawns [] = false
  spawns (spawn_worker ∷ cs) = true
  spawns (_ ∷ cs) = spawns cs

  -- A new executor behind its start.
  unfoldable pub launched : Strand Task
  unfolding start
  launched = let (e, calls) = start {Task = Task} initial in fresh e (spawns calls) false
