-- ===== src/Runtime/Executor/Sweep.antt =====
-- src/runtime/executor.cpp: `stop`, `schedule` and timer handlers on any number of threads, in their
-- atomic steps: the sections of `registerTimer`, `unregisterTimer` and `cancelAllTimers`, and in `stop`
-- the test of `started_`, the exchange of `stopping_`, the calls of asio, the join and the store to
-- `started_`. The worker is one of the threads: a task of it may call `stop`, and `workerLoop` returns
-- only outside of a task and behind `guard_.reset`. A join waits for that return, and a thread that
-- would join itself does not go on. A thread may have passed the test of `stopping_` in `schedule` at
-- any time, so `registerTimer` is a step in every state.
pub mod Ending
use rdp_ext.Common.{
  if◌then◌else◌, not, ◌&&◌, ℕ, suc, ◌+◌, ◌≤◌, ◌≡◌, ◌≢◌, refl, ◌⊎◌, inl, inr, Bool, true, false,
  List, [], ◌∷◌, ◌++◌, arith,
}
use rdp_ext.Runtime.Executor.{
  Executor, Call, reset_guard, stop_context, join_worker, register_timer, unregister_timer,
  cancel_all_timers, erase, stop,
}

-- The exchange of `stopping_`, and whether it took place.
unfoldable pub stop_claim : Executor → Executor × Bool
stop_claim e = if e.stopping then (e, false) else (record e { stopping = true }, true)

module _ {Task : Type 0} where
  -- The join; the flag says whether the caller is the worker itself.
  unfoldable pub stop_join : Bool → Executor → Executor × List (Call Task)
  stop_join on_worker e =
      if e.worker_joinable && not on_worker
      then (record e { worker_joinable = false }, join_worker ∷ [])
      else (e, [])

  -- A stop that no other thread interrupts is its steps one after the other.
  stop_parts :
      (on_worker : Bool) (e : Executor)
      → stop {Task = Task} on_worker e ≡ (
          if e.started && (stop_claim e).1
          then (let (swept, cancels) = cancel_all_timers (stop_claim e).0 in
              let (joined, joins) = stop_join on_worker swept in
              (record joined { started = false }, cancels ++ reset_guard ∷ stop_context ∷ joins))
          else (e, []))
  unfolding stop stop_claim stop_join cancel_all_timers
  stop_parts on_worker e = ground arith

-- How far the thread that took the exchange is in `stop`.
pub data StopPhase : Type 0 where
  -- before the exchange, behind it, behind `cancelAllTimers`, `guard_.reset`, `context_.stop`, the join,
  -- and at the end
  before sweeping swept released halted joined ended : StopPhase

-- Where the worker is: outside of `stop`, before the exchange of its own `stop`, behind it as the one that took it,
-- or returned from `workerLoop`.
pub data WorkerPhase : Type 0 where
  working entered stops_itself gone : WorkerPhase

-- `worker_.get_id() == std::this_thread::get_id()` in the thread that took the exchange.
abbrev pub is_worker : WorkerPhase → Bool
is_worker stops_itself = true
is_worker _ = false

-- Behind the end of the `stop` that took the exchange.
abbrev pub return_worker : WorkerPhase → WorkerPhase
return_worker stops_itself = working
return_worker worker = worker

-- `guard_.reset` was called.
abbrev pub is_released : StopPhase → Bool
is_released before = false
is_released sweeping = false
is_released swept = false
is_released _ = true

pub record Threads (Task : Type 0) : Type 0 where
  pub executor : Executor
  pub stop_phase : StopPhase
  -- the threads in `stop` that passed the test of `started_` and come to the exchange, the worker not counted
  pub waiting : ℕ
  pub worker : WorkerPhase
  -- the calls of `stop` besides those of `cancelAllTimers`
  pub calls : List (Call Task)

module _ {Task : Type 0} where
  pub data Step (t u : Threads Task) : Type 0 where
    register :
        (timer : ℕ) → u ≡ record t { executor = (register_timer t.executor timer).0 } → Step t u
    unregister :
        (timer : ℕ) → u ≡ record t { executor = unregister_timer t.executor timer } → Step t u
    enter : t.executor.started ≡ true → u ≡ record t { waiting = suc t.waiting } → Step t u
    claim :
        (others : ℕ)
        → t.waiting ≡ suc others
        → (stop_claim t.executor).1 ≡ true
        → u ≡ record t {
          executor = (stop_claim t.executor).0;
          stop_phase = sweeping;
          waiting = others;
        }
        → Step t u
    leave :
        (others : ℕ)
        → t.waiting ≡ suc others
        → (stop_claim t.executor).1 ≡ false
        → u ≡ record t { waiting = others }
        → Step t u
    enter_worker :
        t.worker ≡ working
        → t.executor.started ≡ true
        → u ≡ record t { worker = entered }
        → Step t u
    claim_worker :
        t.worker ≡ entered
        → (stop_claim t.executor).1 ≡ true
        → u ≡ record t {
          executor = (stop_claim t.executor).0;
          stop_phase = sweeping;
          worker = stops_itself;
        }
        → Step t u
    leave_worker :
        t.worker ≡ entered
        → (stop_claim t.executor).1 ≡ false
        → u ≡ record t { worker = working }
        → Step t u
    -- `workerLoop` returns
    exit :
        t.worker ≡ working
        → is_released t.stop_phase ≡ true
        → u ≡ record t { worker = gone }
        → Step t u
    sweep :
        t.stop_phase ≡ sweeping
        → u ≡ record t {
          executor = (cancel_all_timers {Task = Task} t.executor).0;
          stop_phase = swept;
        }
        → Step t u
    release :
        t.stop_phase ≡ swept
        → u ≡ record t { stop_phase = released; calls = t.calls ++ reset_guard ∷ [] }
        → Step t u
    halt :
        t.stop_phase ≡ released
        → u ≡ record t { stop_phase = halted; calls = t.calls ++ stop_context ∷ [] }
        → Step t u
    -- without a join, or with one of a worker that has returned
    join :
        t.stop_phase ≡ halted
        → ((stop_join {Task = Task} (is_worker t.worker) t.executor).1 ≡ []) ⊎ (t.worker ≡ gone)
        → u ≡ record t {
          executor = (stop_join {Task = Task} (is_worker t.worker) t.executor).0;
          stop_phase = joined;
          calls = t.calls ++ (stop_join (is_worker t.worker) t.executor).1;
        }
        → Step t u
    end :
        t.stop_phase ≡ joined
        → u ≡ record t {
          executor = record (t.executor) { started = false };
          stop_phase = ended;
          worker = return_worker t.worker;
        }
        → Step t u

  pub data Reach (t : Threads Task) : Threads Task → Type 0 where
    here : Reach t t
    next : {u v : Threads Task} → Reach t u → Step u v → Reach t v

  -- What one thread has called by some point of its `stop`.
  abbrev pub HasCalled : StopPhase → List (Call Task) → Type 0
  HasCalled before cs = cs ≡ []
  HasCalled sweeping cs = cs ≡ []
  HasCalled swept cs = cs ≡ []
  HasCalled released cs = cs ≡ reset_guard ∷ []
  HasCalled halted cs = cs ≡ reset_guard ∷ stop_context ∷ []
  HasCalled joined cs =
      (cs ≡ reset_guard ∷ stop_context ∷ []) ⊎ (cs ≡ reset_guard ∷ stop_context ∷ join_worker ∷ [])
  HasCalled ended cs =
      (cs ≡ reset_guard ∷ stop_context ∷ []) ⊎ (cs ≡ reset_guard ∷ stop_context ∷ join_worker ∷ [])

  record Inv (t : Threads Task) : Type 0 where
    raised : (t.stop_phase ≡ before) ⊎ (t.executor.stopping ≡ true)
    taken : (t.stop_phase ≢ before) ⊎ (t.executor.stopping ≡ false)
    clear : (t.stop_phase ≡ before) ⊎ (t.stop_phase ≡ sweeping) ⊎ (t.executor.timers ≡ [])
    called : HasCalled t.stop_phase t.calls
    over : (t.stop_phase ≢ ended) ⊎ (t.executor.started ≡ false)
    pub own : (is_worker t.worker ≡ false) ⊎ ((t.stop_phase ≢ before) × (t.stop_phase ≢ ended))

  Step-Inv : {t u : Threads Task} → Step t u → Inv t → Inv u
  unfolding register_timer unregister_timer cancel_all_timers erase stop_claim stop_join
  Step-Inv (register timer e) v = ground arith
  Step-Inv (unregister timer e) v = ground arith
  Step-Inv (enter s e) v = ground arith
  Step-Inv (claim others w c e) v = ground arith
  Step-Inv (leave others w c e) v = ground arith
  Step-Inv (enter_worker w s e) v = ground arith
  Step-Inv (claim_worker w c e) v = ground arith
  Step-Inv (leave_worker w c e) v = ground arith
  Step-Inv (exit w s e) v = ground arith
  Step-Inv (sweep s e) v = ground arith
  Step-Inv (release s e) v = ground arith
  Step-Inv (halt s e) v = ground arith
  Step-Inv (join s c e) v = ground arith
  Step-Inv (end s e) v = ground arith

  Reach-Inv : {t u : Threads Task} → Inv t → Reach t u → Inv u
  Reach-Inv v here = v
  Reach-Inv v (next r st) = Step-Inv st (Reach-Inv v r)

  -- No stop is under way yet.
  pub record IsFresh (t : Threads Task) : Type 0 where
    pub phase : t.stop_phase ≡ before
    pub running : t.executor.stopping ≡ false
    pub uncalled : t.calls ≡ []
    pub outside : is_worker t.worker ≡ false

  IsFresh-Inv : {t : Threads Task} → IsFresh t → Inv t
  IsFresh-Inv {t = t} f =
      let p = f.phase in
      let q = f.running in
      let r = f.uncalled in
      record {
        raised = inl p;
        taken = inr q;
        clear = inl p;
        called = ground arith;
        over = ground arith;
        own = inl f.outside;
      }

  -- No timer survives a stop. Let any threads stop an executor, register timers and unregister them, in any
  -- order of their steps, and none start it: once `cancelAllTimers` has run, no timer is registered any more,
  -- also by a thread that passed the test of `stopping_` before the stop began.
  pub no_timer_survives :
      {t u : Threads Task}
      → IsFresh t
      → Reach t u
      → u.stop_phase ≢ before
      → u.stop_phase ≢ sweeping
      → u.executor.timers ≡ []
  no_timer_survives {t = t} {u = u} f r b s =
      let v : Inv u = Reach-Inv (IsFresh-Inv f) r in ground arith

  -- However many threads stop an executor, one of them stops it. Let them take their steps in any order, beside
  -- threads that register and unregister timers, and none that starts it: the calls of `guard_.reset`,
  -- `context_.stop` and the join are those of one thread up to its phase, in this order, and behind the last
  -- of them the executor does not count as started.
  pub stop_acts_once :
      {t u : Threads Task}
      → IsFresh t
      → Reach t u
      → HasCalled u.stop_phase u.calls × ((u.stop_phase ≢ ended) ⊎ (u.executor.started ≡ false))
  stop_acts_once f r = let v = Reach-Inv (IsFresh-Inv f) r in (v.called, v.over)
