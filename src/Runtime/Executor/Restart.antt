-- ===== src/Runtime/Executor/Restart.antt =====
-- src/runtime/executor.cpp: a start behind a stop, and a start that a stop overtakes.
use rdp_ext.Common.{if◌then◌else◌, ℕ, ◌≡◌, Bool, true, false, List, [], ◌∷◌, ◌++◌, map, arith}
use rdp_ext.Runtime.Executor.{
  Executor, Call, post_to_strand, cancel_timer, reset_guard, stop_context, spawn_worker,
  join_worker, start, stop, post, RunEnd, run_returned, worker_loop,
}

-- The first part of `start`: the exchange of `started_`, and whether it took place.
unfoldable pub start_claim : Executor → Executor × Bool
start_claim e = if e.started then (e, false) else (record e { started = true }, true)

module _ {Task : Type 0} where
  -- Whether a context is stopped behind some calls; the executor never calls its `restart`.
  abbrev pub is_stopped : Bool → List (Call Task) → Bool
  is_stopped before [] = before
  is_stopped before (stop_context ∷ cs) = is_stopped true cs
  is_stopped before (_ ∷ cs) = is_stopped before cs

  is_stopped-append :
      (before : Bool) (xs ys : List (Call Task))
      → is_stopped before (xs ++ ys) ≡ is_stopped (is_stopped before xs) ys
  is_stopped-append before [] ys = ground arith
  is_stopped-append before (stop_context ∷ xs) ys = is_stopped-append true xs ys
  is_stopped-append before (post_to_strand task ∷ xs) ys = is_stopped-append before xs ys
  is_stopped-append before (_ ∷ xs) ys = is_stopped-append before xs ys

  is_stopped-cancels :
      (before : Bool) (ts : List ℕ) (cs : List (Call Task))
      → is_stopped before (map cancel_timer ts ++ cs) ≡ is_stopped before cs
  is_stopped-cancels before [] cs = ground arith
  is_stopped-cancels before (t ∷ ts) cs = is_stopped-cancels before ts cs

  -- `ends` is what the calls of `context_.run()` give, on a context that is stopped or not; boost::asio
  -- documents that on a stopped one `run` returns at once. A start behind the stop of a started executor
  -- makes it accept tasks again, while the context stays stopped, so that the loop of the new worker ends
  -- with its first call of `run`.
  pub restart_never_runs :
      (ends : Bool → List RunEnd) (e : Executor) (on_worker : Bool) (task : Task)
      → ends true ≡ run_returned ∷ []
      → e.started ≡ true
      → e.stopping ≡ false
      → let (stopped, calls) = stop {Task = Task} on_worker e in
        let (again, more) = start {Task = Task} stopped in
        (again.started ≡ true)
        × (again.stopping ≡ false)
        × (post again task ≡ post_to_strand task ∷ [])
        × (worker_loop (ends (is_stopped false (calls ++ more))) ≡ ([], true))
  unfolding start stop post worker_loop
  restart_never_runs ends e on_worker task returns s p = ground (
    arith,
    is_stopped-append false (stop {Task = Task} on_worker e).1 (spawn_worker ∷ []),
    is_stopped-cancels false e.timers (reset_guard ∷ stop_context ∷ join_worker ∷ []),
    is_stopped-cancels false e.timers (reset_guard ∷ stop_context ∷ []),
  )

  -- The rest of `start`.
  unfoldable pub start_rest : Executor → Executor × List (Call Task)
  start_rest e = (record e { stopping = false; worker_joinable = true }, spawn_worker ∷ [])

  start_parts :
      (e : Executor)
      → start {Task = Task} e
        ≡ (if (start_claim e).1 then start_rest (start_claim e).0 else (e, []))
  unfolding start start_claim start_rest
  start_parts e = ground arith

  -- Where another thread stops a new executor between the two parts of a start, the stop does not last: the
  -- worker is there and a post is accepted, but the executor does not count as started, so that every
  -- further stop returns without a call.
  pub start_overtaken :
      (e : Executor) (on_worker again : Bool) (task : Task)
      → e.started ≡ false
      → e.stopping ≡ false
      → let (claimed, won) = start_claim e in
        let (stopped, cancels) = stop {Task = Task} on_worker claimed in
        let (late, calls) = start_rest stopped in
        (won ≡ true)
        × (late.worker_joinable ≡ true)
        × (post late task ≡ post_to_strand task ∷ [])
        × (stop {Task = Task} again late ≡ (late, []))
  unfolding start_claim stop start_rest post
  start_overtaken e on_worker again task s p = ground arith
