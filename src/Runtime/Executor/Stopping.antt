-- ===== src/Runtime/Executor/Stopping.antt =====
-- What a stopped executor accepts, and what its handlers still do.
use rdp_ext.Common.{ℕ, ◌≡◌, ◌⊎◌, refl, ap, Bool, true, false, List, [], ◌∷◌, ◌++◌, map, none, arith}
use rdp_ext.Runtime.Executor.{
  Executor, Call, cancel_timer, reset_guard, stop_context, join_worker, start, stop, post,
  run_posted, schedule, timer_done, initial, erase,
}

-- Between two calls an executor is not both started and stopping, and a stopping one has no timers.
pub record Inv (e : Executor) : Type 0 where
  pub exclusive : (e.started ≡ false) ⊎ (e.stopping ≡ false)
  pub swept : (e.stopping ≡ false) ⊎ (e.timers ≡ [])

-- The calls that change an executor.
pub data Op (Task : Type 0) : Type 0 where
  starts : Op Task
  stops : Bool → Op Task
  schedules : ℕ → Task → Op Task
  done : ℕ → Bool → Task → Op Task

module _ {Task : Type 0} where
  abbrev pub apply : Executor → Op Task → Executor
  apply e starts = (start {Task = Task} e).0
  apply e (stops on_worker) = (stop {Task = Task} on_worker e).0
  apply e (schedules timer task) = (schedule e timer task).0
  apply e (done timer error task) = (timer_done e timer error task).0

  unfoldable pub run : Executor → List (Op Task) → Executor
  run e [] = e
  run e (op ∷ ops) = run (apply e op) ops

  apply-Inv : (e : Executor) (op : Op Task) → Inv e → Inv (apply e op)
  unfolding start stop schedule timer_done erase
  apply-Inv e op v = ground arith

  run_from-Inv : (e : Executor) (ops : List (Op Task)) → Inv e → Inv (run e ops)
  unfolding run
  run_from-Inv e [] v = v
  run_from-Inv e (op ∷ ops) v = run_from-Inv (apply e op) ops (apply-Inv e op v)

  -- After any calls a new executor is not both started and stopping, and it has no timers while it is
  -- stopping.
  pub run_executor-Inv : (ops : List (Op Task)) → Inv (run initial ops)
  run_executor-Inv ops = run_from-Inv initial ops (ground arith)

  abbrev pub cancelled : List (Call Task) → List ℕ
  cancelled [] = []
  cancelled (cancel_timer timer ∷ cs) = timer ∷ cancelled cs
  cancelled (_ ∷ cs) = cancelled cs

  cancelled-map :
      (ts : List ℕ) (cs : List (Call Task))
      → cancelled cs ≡ []
      → cancelled (map cancel_timer ts ++ cs) ≡ ts
  cancelled-map [] cs h = h
  cancelled-map (t ∷ ts) cs h = ap (◌∷◌ t) (cancelled-map ts cs h)

  -- A stop of a started executor cancels every registered timer, and from then on nothing is accepted:
  -- posts and schedules do nothing, tasks that were posted before and timers that end now execute
  -- nothing, and a second stop does nothing.
  pub stop_silences :
      (e : Executor) (on_worker again error : Bool) (timer : ℕ) (task : Task)
      → e.started ≡ true
      → e.stopping ≡ false
      → let (s, calls) = stop {Task = Task} on_worker e in
        (cancelled calls ≡ e.timers)
        × (post s task ≡ [])
        × (run_posted s task ≡ none)
        × (schedule s timer task ≡ (s, []))
        × ((timer_done s timer error task).1 ≡ none)
        × (stop {Task = Task} again s ≡ (s, []))
  unfolding stop post run_posted schedule timer_done
  stop_silences e on_worker again error timer task h k = ground (
    arith,
    cancelled-map e.timers (reset_guard ∷ stop_context ∷ join_worker ∷ []) refl,
    cancelled-map e.timers (reset_guard ∷ stop_context ∷ []) refl,
  )

-- A start and then a stop leave an executor stopping, whether it was started before or not.
pub stop-start :
    (Task : Type 0) (e : Executor) (on_worker : Bool)
    → Inv e
    → let s = (stop {Task = Task} on_worker (start {Task = Task} e).0).0 in
      (s.started ≡ false) × (s.stopping ≡ true)
unfolding start stop
stop-start Task e on_worker v = ground arith
