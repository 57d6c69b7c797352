-- ===== src/Runtime/Executor/Queue/Order.antt =====
-- The order of an executor's tasks, and that each of them is executed.
use rdp_ext.Common.{
  ℕ, ◌≡◌, refl, sym, ap, ◌∙◌, ◌⊎◌, inl, inr, Bool, true, false, List, [], ◌∷◌, ◌++◌, map, Option,
  none, some, All, All-append, arith,
}
use mathlib.Core.List.{append-nil, append_assoc, map-append}
use rdp_ext.Runtime.Executor.{Executor, run_posted, schedule, timer_done, cancel_all_timers}
use rdp_ext.Runtime.Executor.Sweep.{stop_claim}
use rdp_ext.Runtime.Executor.Queue.{
  Handler, posted, waited, task_of, handle, Strand, Step, pass, push, wait, fire, test, execute,
  skip, claim, sweep, halt, depart, Reach, here, next, fresh,
}

module _ {Task : Type 0} where
  -- A timer's error comes with a stop.
  abbrev pub IsClean : Bool → Handler Task → Type 0
  IsClean stopping (posted task) = Unit
  IsClean stopping (waited timer error task) = (error ≡ false) ⊎ (stopping ≡ true)

  -- The task that a handler is about to execute, or executes.
  abbrev pub held : Option Task → List Task
  held none = []
  held (some task) = task ∷ []

  pub record Inv (t : Strand Task) : Type 0 where
    pub order : t.accepted ≡ (t.executed ++ held t.running) ++ (t.skipped ++ map task_of t.queue)
    pub idle : (t.skipped ≡ []) ⊎ (t.executor.stopping ≡ true)
    pub free : (t.running ≡ none) ⊎ (t.skipped ≡ [])
    pub clean : All (IsClean t.executor.stopping) t.queue

  All-IsClean :
      (a b : Bool) (hs : List (Handler Task))
      → (a ≡ b) ⊎ (b ≡ true)
      → All (IsClean a) hs
      → All (IsClean b) hs
  All-IsClean a b [] s h = tt
  All-IsClean a b (posted task ∷ hs) s h = (tt, All-IsClean a b hs s h.1)
  All-IsClean a b (waited timer error task ∷ hs) s h = (ground arith, All-IsClean a b hs s h.1)

  pub handle-stopping : (e : Executor) (h : Handler Task) → (handle e h).0.stopping ≡ e.stopping
  unfolding handle timer_done
  handle-stopping e (posted task) = refl
  handle-stopping e (waited timer error task) = refl

  -- A handler executes its own task, and only while the executor is not stopping.
  handle-eq-some :
      (e : Executor) (h : Handler Task) (task : Task)
      → (handle e h).1 ≡ some task
      → (task ≡ task_of h) × (e.stopping ≡ false)
  unfolding handle run_posted timer_done
  handle-eq-some e (posted task') task p = ground arith
  handle-eq-some e (waited timer error task') task p = ground arith

  handle-eq-none :
      (e : Executor) (h : Handler Task)
      → IsClean e.stopping h
      → (handle e h).1 ≡ none
      → e.stopping ≡ true
  unfolding handle run_posted timer_done
  handle-eq-none e (posted task) c p = ground arith
  handle-eq-none e (waited timer error task) c p = ground arith

  order-push :
      (xs ys zs : List Task) (hs : List (Handler Task)) (h : Handler Task)
      → zs ≡ xs ++ (ys ++ map task_of hs)
      → zs ++ task_of h ∷ [] ≡ xs ++ (ys ++ map task_of (hs ++ h ∷ []))
  order-push xs ys zs hs h e = rw e (simp (map-append, append_assoc))

  pub schedule-stopping :
      (e : Executor) (timer : ℕ) (task : Task) → (schedule e timer task).0.stopping ≡ e.stopping
  unfolding schedule
  schedule-stopping e timer task = ground arith

  Step-Inv : {t u : Strand Task} → Step t u → Inv t → Inv u
  unfolding stop_claim cancel_all_timers
  Step-Inv (pass task p e) v =
      rw e (record { order = v.order; idle = v.idle; free = v.free; clean = v.clean })
  Step-Inv {t = t} (push before after task p e) v = rw e (record {
    order =
        order-push (t.executed ++ held t.running) t.skipped t.accepted t.queue (posted task)
          v.order;
    idle = v.idle;
    free = v.free;
    clean = All-append _ t.queue _ v.clean (tt, tt);
  })
  Step-Inv {t = t} (wait timer task p e) v =
      let same = schedule-stopping t.executor timer task in
      rw e (record {
        order = v.order;
        idle = rw same v.idle;
        free = v.free;
        clean = All-IsClean t.executor.stopping _ t.queue (inl (sym same)) v.clean;
      })
  Step-Inv {t = t} (fire before after timer error task p c e) v = rw e (record {
    order =
        order-push (t.executed ++ held t.running) t.skipped t.accepted t.queue
          (waited timer error task) v.order;
    idle = v.idle;
    free = v.free;
    clean = All-append _ t.queue _ v.clean (c, tt);
  })
  Step-Inv {t = t} (test handler rest task (w, h, n) p d e) v =
      let same = handle-stopping t.executor handler in
      let (own, working) = handle-eq-some t.executor handler task d in
      let none_skipped : t.skipped ≡ [] = ground (arith, v.idle) in
      let shown : t.accepted
          ≡ (t.executed ++ held t.running) ++ (t.skipped ++ task_of handler ∷ map task_of rest) =
        rw p at v.order in
      let shorter : t.accepted ≡ t.executed ++ task_of handler ∷ map task_of rest =
        rw (none_skipped, n, append-nil t.executed) at shown in
      let front : All (IsClean t.executor.stopping) (handler ∷ rest) = rw p at v.clean in
      rw e (record {
        order =
            rw (none_skipped, own)
              (shorter ∙ sym (append_assoc t.executed (task_of handler ∷ []) (map task_of rest)));
        idle = inl none_skipped;
        free = inr none_skipped;
        clean = rw same front.1;
      })
  Step-Inv {t = t} (execute task p e) v =
      let shown : t.accepted ≡ (t.executed ++ task ∷ []) ++ (t.skipped ++ map task_of t.queue) =
        rw p at v.order in
      rw e (record {
        order = rw (append-nil (t.executed ++ task ∷ [])) shown;
        idle = v.idle;
        free = inl refl;
        clean = v.clean;
      })
  Step-Inv {t = t} (skip handler rest (w, h, n) p d e) v =
      let same = handle-stopping t.executor handler in
      let shown : t.accepted
          ≡ (t.executed ++ held t.running) ++ (t.skipped ++ task_of handler ∷ map task_of rest) =
        rw p at v.order in
      let front : All (IsClean t.executor.stopping) (handler ∷ rest) = rw p at v.clean in
      rw e (record {
        order =
            shown
            ∙ ap (λ ts. (t.executed ++ held t.running) ++ ts)
                (sym (append_assoc t.skipped (task_of handler ∷ []) (map task_of rest)));
        idle = inr (same ∙ handle-eq-none t.executor handler front.0 d);
        free = inl n;
        clean = rw same front.1;
      })
  Step-Inv {t = t} (claim c e) v = rw e (record {
    order = v.order;
    idle = ground arith;
    free = v.free;
    clean = All-IsClean t.executor.stopping _ t.queue (ground arith) v.clean;
  })
  Step-Inv {t = t} (sweep s e) v = rw e (record {
    order = v.order;
    idle = inr s;
    free = v.free;
    clean = All-IsClean t.executor.stopping _ t.queue (inr s) v.clean;
  })
  Step-Inv (halt s e) v =
      rw e (record { order = v.order; idle = v.idle; free = v.free; clean = v.clean })
  Step-Inv (depart h n e) v =
      rw e (record { order = v.order; idle = v.idle; free = v.free; clean = v.clean })

  pub Reach-Inv : {t u : Strand Task} → Inv t → Reach t u → Inv u
  Reach-Inv v here = v
  Reach-Inv v (next r st) = Step-Inv st (Reach-Inv v r)

  pub fresh-Inv :
      (e : Executor) (has_worker is_stopped : Bool) → Inv (fresh e has_worker is_stopped)
  fresh-Inv e has_worker is_stopped = record {
    order = refl;
    idle = inl refl;
    free = inl refl;
    clean = tt;
  }

  -- An executor is a queue. Let any threads post, schedule and stop, and none start: the tasks that it accepted
  -- are those that it executed, then the one whose handler passed its test, if any, then those that it passed
  -- over, then those that wait, in the order of their acceptance, and none is passed over before a stop.
  pub tasks_in_order :
      (e : Executor) (has_worker is_stopped : Bool) {u : Strand Task}
      → Reach (fresh e has_worker is_stopped) u
      → (u.accepted ≡ (u.executed ++ held u.running) ++ (u.skipped ++ map task_of u.queue))
        × ((u.skipped ≡ []) ⊎ (u.executor.stopping ≡ true))
  tasks_in_order e has_worker is_stopped r =
      let v = Reach-Inv (fresh-Inv e has_worker is_stopped) r in (v.order, v.idle)

  -- What was executed, and what is about to be.
  abbrev pub begun : Strand Task → List Task
  begun t = t.executed ++ held t.running

  Step-silent :
      {t u : Strand Task}
      → Step t u
      → t.executor.stopping ≡ true
      → (begun u ≡ begun t) × (u.executor.stopping ≡ true)
  unfolding stop_claim cancel_all_timers
  Step-silent (pass task p e) s = ground arith
  Step-silent (push before after task p e) s = ground arith
  Step-silent {t = t} (wait timer task p e) s =
      rw e (refl, schedule-stopping t.executor timer task ∙ s)
  Step-silent (fire before after timer error task p c e) s = ground arith
  Step-silent {t = t} (test handler rest task f p d e) s =
      let (_, working) = handle-eq-some t.executor handler task d in absurd (cc)
  Step-silent {t = t} (execute task p e) s = rw (e, p) (append-nil (t.executed ++ task ∷ []), s)
  Step-silent {t = t} (skip handler rest f p d e) s =
      rw e (refl, handle-stopping t.executor handler ∙ s)
  Step-silent (claim c e) s = ground arith
  Step-silent (sweep s' e) s = ground arith
  Step-silent (halt s' e) s = ground arith
  Step-silent (depart h n e) s = ground arith

  -- Once `stopping_` is set, no task is executed any more but the one whose handler passed its test before, if
  -- any: what was executed, and then that task, stays the same, whatever threads do, while none starts the
  -- executor.
  pub stopped_for_good :
      {t u : Strand Task}
      → t.executor.stopping ≡ true
      → Reach t u
      → (u.executed ++ held u.running ≡ t.executed ++ held t.running) × (u.executor.stopping ≡ true)
  stopped_for_good s here = (refl, s)
  stopped_for_good s (next r st) =
      let (same, stays) = stopped_for_good s r in
      let (step_same, step_stays) = Step-silent st stays in (step_same ∙ same, step_stays)
