-- ===== src/Tests/Queue.antt =====
-- The executor's queue at concrete runs. A task is its number.
use rdp_ext.Common.{ℕ, ◌≡◌, refl, ◌⊎◌, inl, true, false, [], ◌∷◌, ◌++◌, map, some, none}
use rdp_ext.Runtime.Executor.{
  Executor, start, post, run_posted, schedule, timer_done, insert, erase,
}
use rdp_ext.Runtime.Executor.Queue.{
  Strand, posted, waited, task_of, handle, pass, push, wait, fire, test, execute, skip, Reach, here,
  next, fresh, launched,
}
use rdp_ext.Runtime.Executor.Queue.Order.{held, tasks_in_order, stopped_for_good}
use rdp_ext.Runtime.Executor.Queue.Draining.{all_executed}

abbrev working : Executor
working = record { started = true; stopping = false; worker_joinable = true; timers = [] }

-- Two posts and a timer; the first post was executed, and the timer's handler has passed its test.
abbrev busy : Strand ℕ
busy = record (fresh working true false) {
  running = some 3;
  queue = posted 2 ∷ [];
  accepted = 1 ∷ 3 ∷ 2 ∷ [];
  executed = 1 ∷ [];
}

busy_reached : Reach (launched {Task = ℕ}) busy
unfolding launched start post schedule handle insert run_posted timer_done erase
busy_reached =
    let one : Strand ℕ = record (fresh working true false) { passed = 1 ∷ [] } in
    let two : Strand ℕ = record one { passed = []; queue = posted 1 ∷ []; accepted = 1 ∷ [] } in
    let three : Strand ℕ = record two {
      executor = record working { timers = 11 ∷ [] };
      waits = (11, 3) ∷ [];
    } in
    let four : Strand ℕ = record three { passed = 2 ∷ [] } in
    let five : Strand ℕ = record four {
      waits = [];
      queue = posted 1 ∷ waited 11 false 3 ∷ [];
      accepted = 1 ∷ 3 ∷ [];
    } in
    let six : Strand ℕ = record five {
      passed = [];
      queue = posted 1 ∷ waited 11 false 3 ∷ posted 2 ∷ [];
      accepted = 1 ∷ 3 ∷ 2 ∷ [];
    } in
    let seven : Strand ℕ = record six {
      queue = waited 11 false 3 ∷ posted 2 ∷ [];
      running = some 1;
    } in
    let eight : Strand ℕ = record seven { running = none; executed = 1 ∷ [] } in
    let r₁ : Reach launched one = next here (pass 1 refl refl) in
    let r₂ : Reach launched two = next r₁ (push [] [] 1 refl refl) in
    let r₃ : Reach launched three = next r₂ (wait 11 3 refl refl) in
    let r₄ : Reach launched four = next r₃ (pass 2 refl refl) in
    let r₅ : Reach launched five = next r₄ (fire [] [] 11 false 3 refl (inl refl) refl) in
    let r₆ : Reach launched six = next r₅ (push [] [] 2 refl refl) in
    let r₇ : Reach launched seven =
      next r₆
        (test (posted 1) (waited 11 false 3 ∷ posted 2 ∷ []) 1 (refl, refl, refl) refl refl refl) in
    let r₈ : Reach launched eight = next r₇ (execute 1 refl refl) in
    next r₈ (test (waited 11 false 3) (posted 2 ∷ []) 3 (refl, refl, refl) refl refl refl)

abbrev stopping : Executor
stopping = record working { stopping = true }

-- A stop falls between the test and the execution: the timer's task is still executed, and the post is passed over.
abbrev halted : Strand ℕ
halted = record busy { executor = stopping }

abbrev drained : Strand ℕ
drained = record halted { running = none; queue = []; executed = 1 ∷ 3 ∷ []; skipped = 2 ∷ [] }

skipping : Reach halted drained
unfolding handle run_posted
skipping =
    let done : Strand ℕ = record halted { running = none; executed = 1 ∷ 3 ∷ [] } in
    let r : Reach halted done = next here (execute 3 refl refl) in
    next r (skip (posted 2) [] (refl, refl, refl) refl refl refl)

busy_behind : Reach (fresh working true false) busy
unfolding launched start
busy_behind = busy_reached

tasks_in_order_example :
    (busy.accepted
      ≡ (busy.executed ++ held (busy.running)) ++ (busy.skipped ++ map task_of busy.queue))
    × ((busy.skipped ≡ []) ⊎ (busy.executor.stopping ≡ true))
tasks_in_order_example = tasks_in_order {Task = ℕ} working true false busy_behind

all_executed_example :
    (v : Strand ℕ) × Reach busy v
    × (v.queue ≡ [])
    × (v.running ≡ none)
    × (v.executed ≡ 1 ∷ 3 ∷ 2 ∷ [])
    × (v.accepted ≡ 1 ∷ 3 ∷ 2 ∷ [])
all_executed_example = all_executed {Task = ℕ} busy_reached refl

stopped_for_good_example :
    (drained.executed ++ held (drained.running) ≡ halted.executed ++ held (halted.running))
    × (drained.executor.stopping ≡ true)
stopped_for_good_example = stopped_for_good {Task = ℕ} refl skipping
