-- ===== src/Runtime/Executor/Sweep/Ending.antt =====
-- src/runtime/executor.cpp: every `stop` comes to its end.
use rdp_ext.Common.{Bool-cases, ◌⊎◌, inl, inr, ℕ, zero, suc, ◌≡◌, ◌≢◌, refl, true, false, [], arith}
use rdp_ext.Runtime.Executor.Sweep.{
  StopPhase, before, sweeping, swept, released, halted, joined, ended, WorkerPhase, working,
  entered, stops_itself, gone, is_worker, Threads, Step, claim, leave, claim_worker, leave_worker,
  exit, sweep, release, halt, join, end, Reach, here, next, IsFresh, stop_claim, stop_join,
  HasCalled, Inv, IsFresh-Inv, Reach-Inv, no_timer_survives, stop_acts_once,
}
use rdp_ext.Runtime.Executor.{cancel_all_timers}

module _ {Task : Type 0} where
  Reach-trans : {t u v : Threads Task} → Reach t u → Reach u v → Reach t v
  Reach-trans r here = r
  Reach-trans r (next s st) = next (Reach-trans r s) st

  -- What an end of the thread that took the exchange leads to.
  abbrev Ends : Threads Task → Type 0
  Ends u = (v : Threads Task) × Reach u v × (v.stop_phase ≡ ended) × (v.executor.stopping ≡ true)

  Ends-behind : {u v : Threads Task} → Step u v → Ends v → Ends u
  Ends-behind st (z, r, e, s) = (z, Reach-trans (next here st) r, e, s)

  -- Every stop has set the flag.
  abbrev IsRaised : Threads Task → Type 0
  IsRaised u = u.executor.stopping ≡ true

  from_joined : (u : Threads Task) → u.stop_phase ≡ joined → IsRaised u → Ends u
  from_joined u p s = (_, next here (end p refl), refl, s)

  joins :
      (u : Threads Task)
      → u.stop_phase ≡ halted
      → IsRaised u
      → ((stop_join {Task = Task} (is_worker u.worker) u.executor).1 ≡ []) ⊎ (u.worker ≡ gone)
      → Ends u
  unfolding stop_join
  joins u p s c = Ends-behind (join p c refl) (from_joined _ refl (ground arith))

  from_working :
      (u : Threads Task) → u.stop_phase ≡ halted → IsRaised u → u.worker ≡ working → Ends u
  from_working u p s w = Ends-behind (exit w (rw p refl) refl) (joins _ p s (inr refl))

  from_entered :
      (u : Threads Task) → u.stop_phase ≡ halted → IsRaised u → u.worker ≡ entered → Ends u
  unfolding stop_claim
  from_entered u p s w = Ends-behind (leave_worker w (ground arith) refl) (from_working _ p s refl)

  -- The worker that stops itself does not join, and any other comes to the end of `workerLoop`.
  from_halted :
      (u : Threads Task) (worker : WorkerPhase)
      → u.worker ≡ worker
      → u.stop_phase ≡ halted
      → IsRaised u
      → Ends u
  unfolding stop_join
  from_halted u working w p s = from_working u p s w
  from_halted u entered w p s = from_entered u p s w
  from_halted u stops_itself w p s = joins u p s (inl (ground arith))
  from_halted u gone w p s = joins u p s (inr w)

  from_released : (u : Threads Task) → u.stop_phase ≡ released → IsRaised u → Ends u
  from_released u p s = Ends-behind (halt p refl) (from_halted _ u.worker refl refl s)

  from_swept : (u : Threads Task) → u.stop_phase ≡ swept → IsRaised u → Ends u
  from_swept u p s = Ends-behind (release p refl) (from_released _ refl s)

  from_sweeping : (u : Threads Task) → u.stop_phase ≡ sweeping → IsRaised u → Ends u
  unfolding cancel_all_timers
  from_sweeping u p s = Ends-behind (sweep p refl) (from_swept _ refl s)

  -- The thread that took the exchange comes to its end.
  finish :
      (u : Threads Task) (phase : StopPhase)
      → u.stop_phase ≡ phase
      → phase ≢ before
      → IsRaised u
      → Ends u
  finish u before p n s = absurd (n refl)
  finish u sweeping p n s = from_sweeping u p s
  finish u swept p n s = from_swept u p s
  finish u released p n s = from_released u p s
  finish u halted p n s = from_halted u u.worker refl p s
  finish u joined p n s = from_joined u p s
  finish u ended p n s = (u, here, p, s)

  -- The others leave.
  empty :
      (waiting : ℕ) (u : Threads Task)
      → u.waiting ≡ waiting
      → u.stop_phase ≡ ended
      → IsRaised u
      → (v : Threads Task) × Reach u v × (v.stop_phase ≡ ended) × (v.waiting ≡ 0) × IsRaised v
  unfolding stop_claim
  empty zero u w p s = (u, here, p, w, s)
  empty (suc others) u w p s =
      let (v, r, q, z, s') = empty others (record u { waiting = others }) refl p s in
      (v, Reach-trans (next here (leave others w (ground arith) refl)) r, q, z, s')

  -- And the worker.
  clear :
      (u : Threads Task) (worker : WorkerPhase)
      → u.worker ≡ worker
      → u.stop_phase ≡ ended
      → u.waiting ≡ 0
      → IsRaised u
      → (v : Threads Task) × Reach u v
        × (v.stop_phase ≡ ended)
        × (v.waiting ≡ 0)
        × (v.worker ≢ entered)
  unfolding stop_claim
  clear u entered w p z s = (_, next here (leave_worker w (ground arith) refl), p, z, ground arith)
  clear u working w p z s = (u, here, p, z, ground arith)
  clear u stops_itself w p z s = (u, here, p, z, ground arith)
  clear u gone w p z s = (u, here, p, z, ground arith)

  -- Some thread took the exchange or comes to it.
  abbrev pub IsUnderWay : Threads Task → Type 0
  IsUnderWay u = (u.stop_phase ≢ before) ⊎ (u.waiting ≢ 0) ⊎ (u.worker ≡ entered)

  -- What is under way and has the exchange behind it.
  abbrev ReachesClaim : Threads Task → Type 0
  ReachesClaim u = (v : Threads Task) × Reach u v × (v.stop_phase ≢ before) × IsRaised v

  others_claim :
      (u : Threads Task) (waiting : ℕ)
      → u.waiting ≡ waiting
      → u.waiting ≢ 0
      → u.executor.stopping ≡ false
      → ReachesClaim u
  unfolding stop_claim
  others_claim u zero w n e = absurd (n w)
  others_claim u (suc others) w n e =
      (_, next here (claim others w (ground arith) refl), ground arith, ground arith)

  claims_first : (u : Threads Task) → Inv u → IsUnderWay u → ReachesClaim u
  unfolding stop_claim
  claims_first u i (inl n) = (u, here, n, ground arith)
  claims_first u i (inr way) = elim (Bool-cases u.executor.stopping) [
    | inl e ↦ (u, here, ground arith, e)
    | inr e ↦ elim way [
      | inl n ↦ others_claim u u.waiting refl n e
      | inr w ↦ (_, next here (claim_worker w (ground arith) refl), ground arith, ground arith)
    ]
  ]

  -- Every stop comes to its end. Where threads took steps in any order since no stop was under way, and
  -- none started the executor, and some thread, the worker or another, is in `stop` behind the test of
  -- `started_`: the threads can go on until none is in `stop`, the executor does not count as started,
  -- no timer is registered, and `guard_.reset` and `context_.stop` were called once. The join waits for
  -- the worker's return from `workerLoop`, which does not come inside of a task; the tasks of the
  -- worker are taken to return.
  pub stop_completes :
      {t u : Threads Task}
      → IsFresh t
      → Reach t u
      → IsUnderWay u
      → (v : Threads Task) × Reach u v
        × (v.stop_phase ≡ ended)
        × (v.waiting ≡ 0)
        × (v.worker ≢ entered)
        × (is_worker v.worker ≡ false)
        × (v.executor.started ≡ false)
        × (v.executor.timers ≡ [])
        × HasCalled ended v.calls
  stop_completes {u = u} f r way =
      let (v, r₁, n, s) = claims_first u (Reach-Inv (IsFresh-Inv f) r) way in
      let (x, r₂, e, s') = finish v v.stop_phase refl n s in
      let (y, r₃, e', z, s'') = empty x.waiting x refl e s' in
      let (o, r₄, e'', z', w) = clear y y.worker refl e' z s'' in
      let onwards = Reach-trans (Reach-trans r₁ (Reach-trans r₂ r₃)) r₄ in
      let all = Reach-trans r onwards in
      let i = Reach-Inv (IsFresh-Inv f) all in
      let (called, over) = stop_acts_once f all in
      (
        o,
        onwards,
        e'',
        z',
        w,
        ground (arith, i.own),
        ground arith,
        no_timer_survives f all (ground arith) (ground arith),
        rw e'' at called,
      )
