-- ===== src/Runtime/Executor/Queue/Draining.antt =====
-- Each task of an executor that was started is executed.
use rdp_ext.Common.{
  ◌≡◌, refl, sym, ap, ◌∙◌, ◌⊎◌, inl, true, false, List, [], ◌∷◌, ◌++◌, map, Option, none, some, All,
  arith,
}
use mathlib.Core.List.{append-nil, append_assoc}
use rdp_ext.Runtime.Executor.{start, run_posted, timer_done, cancel_all_timers}
use rdp_ext.Runtime.Executor.Sweep.{stop_claim}
use rdp_ext.Runtime.Executor.Queue.{
  Handler, posted, waited, task_of, handle, Strand, IsFree, Step, pass, push, wait, fire, test,
  execute, skip, claim, sweep, halt, depart, Reach, here, next, launched,
}
use rdp_ext.Runtime.Executor.Queue.Order.{
  IsClean, Inv, Reach-Inv, fresh-Inv, handle-stopping, schedule-stopping, begun,
}

module _ {Task : Type 0} where
  -- Without a stop, the executor has its worker, and its context is not stopped.
  record IsManned (t : Strand Task) : Type 0 where
    manned : (t.has_worker ≡ true) ⊎ (t.executor.stopping ≡ true)
    halted : (t.is_stopped ≡ false) ⊎ (t.executor.stopping ≡ true)

  Step-IsManned : {t u : Strand Task} → Step t u → IsManned t → IsManned u
  unfolding stop_claim cancel_all_timers
  Step-IsManned (pass task p e) m = ground arith
  Step-IsManned (push before after task p e) m = ground arith
  Step-IsManned {t} (wait timer task p e) m = rw e (record {
    manned = rw (schedule-stopping t.executor timer task) m.manned;
    halted = rw (schedule-stopping t.executor timer task) m.halted;
  })
  Step-IsManned (fire before after timer error task p c e) m = ground arith
  Step-IsManned {t} (test handler rest task f p d e) m = rw e (record {
    manned = rw (handle-stopping t.executor handler) m.manned;
    halted = rw (handle-stopping t.executor handler) m.halted;
  })
  Step-IsManned (execute task p e) m = ground arith
  Step-IsManned {t} (skip handler rest f p d e) m = rw e (record {
    manned = rw (handle-stopping t.executor handler) m.manned;
    halted = rw (handle-stopping t.executor handler) m.halted;
  })
  Step-IsManned (claim c e) m = ground arith
  Step-IsManned (sweep s e) m = ground arith
  Step-IsManned (halt s e) m = ground arith
  Step-IsManned (depart h n e) m = ground arith

  Reach-IsManned : {t u : Strand Task} → IsManned t → Reach t u → IsManned u
  Reach-IsManned m here = m
  Reach-IsManned m (next r st) = Step-IsManned st (Reach-IsManned m r)

  launched-IsManned : IsManned (launched {Task = Task})
  unfolding launched start
  launched-IsManned = record { manned = inl refl; halted = inl refl }

  launched-Inv : Inv (launched {Task = Task})
  unfolding launched start
  launched-Inv = fresh-Inv _ _ _

  -- A handler executes its task while the executor is not stopping.
  handle-runs :
      (t : Strand Task) (h : Handler Task)
      → t.executor.stopping ≡ false
      → IsClean t.executor.stopping h
      → (handle t.executor h).1 ≡ some (task_of h)
  unfolding handle run_posted timer_done
  handle-runs t (posted task) s c = ground arith
  handle-runs t (waited timer error task) s c = ground arith

  -- What an execution of all that waits leads to.
  abbrev Drained : Strand Task → List Task → Strand Task → Type 0
  Drained u tasks v =
      (v.queue ≡ []) × (v.running ≡ none) × (v.executed ≡ tasks) × (v.accepted ≡ u.accepted)

  -- The worker executes the handlers one after the other.
  drain :
      {t : Strand Task} (hs : List (Handler Task)) (u : Strand Task)
      → Reach t u
      → u.queue ≡ hs
      → IsFree u
      → u.executor.stopping ≡ false
      → All (IsClean u.executor.stopping) hs
      → (v : Strand Task) × Reach t v × Drained u (u.executed ++ map task_of hs) v
  drain [] u r q f s c = (u, r, (q, f.2, sym (append-nil u.executed), refl))
  drain (h ∷ hs) u r q (w, o, n) s c =
      let same = handle-stopping u.executor h in
      let tested : Strand Task = record u {
        executor = (handle u.executor h).0;
        queue = hs;
        running = some (task_of h);
      } in
      let done : Strand Task = record tested {
        running = none;
        executed = u.executed ++ task_of h ∷ [];
      } in
      let r' : Reach _ done =
        next (next {u = u} r (test h hs (task_of h) (w, o, n) q (handle-runs u h s c.0) refl))
          (execute (task_of h) refl refl) in
      let (v, r'', (q', n', x, a)) = drain hs done r' refl (w, o, refl) (same ∙ s) (rw same c.1) in
      (v, r'', (q', n', x ∙ append_assoc u.executed (task_of h ∷ []) (map task_of hs), a))

  -- The task whose handler passed its test is executed, and then those that wait.
  finish :
      (u : Strand Task) (running : Option Task)
      → u.running ≡ running
      → u.has_worker ≡ true
      → u.is_stopped ≡ false
      → u.executor.stopping ≡ false
      → All (IsClean u.executor.stopping) u.queue
      → (v : Strand Task) × Reach u v × Drained u (begun u ++ map task_of u.queue) v
  finish u none p w o s c =
      let (v, r, (q, n, x, a)) = drain u.queue u here refl (w, o, p) s c in
      (
        v,
        r,
        (q, n, x ∙ rw p (ap (λ ts. ts ++ map task_of u.queue) (sym (append-nil u.executed))), a),
      )
  finish u (some task) p w o s c =
      let done : Strand Task = record u { running = none; executed = u.executed ++ task ∷ [] } in
      let (v, r, (q, n, x, a)) =
        drain u.queue done (next here (execute task p refl)) refl (w, o, refl) s c in
      (v, r, (q, n, x ∙ rw p refl, a))

  -- No task is lost. Let any threads post, schedule and stop, from a new executor behind its start on:
  -- where no stop came yet, the worker can go on until no handler waits and none runs, and then exactly
  -- the tasks that were accepted have been executed, each of them once and in the order of their
  -- acceptance.
  pub all_executed :
      {u : Strand Task}
      → Reach (launched {Task = Task}) u
      → u.executor.stopping ≡ false
      → (v : Strand Task) × Reach u v
        × (v.queue ≡ [])
        × (v.running ≡ none)
        × (v.executed ≡ u.accepted)
        × (v.accepted ≡ u.accepted)
  all_executed {u} r s =
      let inv : Inv u = Reach-Inv launched-Inv r in
      let m : IsManned u = Reach-IsManned launched-IsManned r in
      let going : u.is_stopped ≡ false = ground (arith, m.halted) in
      let manned : u.has_worker ≡ true = ground (arith, m.manned) in
      let (v, r', (q, n, x, a)) = finish u u.running refl manned going s inv.clean in
      let none_skipped : u.skipped ≡ [] = ground (arith, inv.idle) in
      let shorter : u.accepted ≡ begun u ++ map task_of u.queue = rw none_skipped at inv.order in
      (v, r', q, n, x ∙ sym shorter, a)
