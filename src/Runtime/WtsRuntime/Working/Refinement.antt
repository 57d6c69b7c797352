-- ===== src/Runtime/WtsRuntime/Working/Refinement.antt =====
-- That the executor runs the server's process as its strand would, until it is stopped (src/runtime/executor.cpp).
use rdp_ext.Common.{
  ◌≡◌, refl, sym, ap, ◌∙◌, ◌⊎◌, inl, inr, Bool, true, List, [], ◌∷◌, ◌++◌, All, All-append,
}
use rdp_ext.Protocol.Serializer.{Archive, Buffer}
use rdp_ext.Telemetry.Sampler.{Sampler}
use rdp_ext.Runtime.Executor.{Executor, stop, run_posted, timer_done}
use rdp_ext.Runtime.Executor
use rdp_ext.Logic.Server.Reporting.{Process, advance, run, new}
use rdp_ext.Logic.Server.Reporting
use rdp_ext.Logic.Server.Reporting.Refinement.{IsFitEvent, received}
use rdp_ext.Runtime.WtsRuntime.Working.{
  Worker, Event, works, connects, disconnects, receives, expires, stops, serve, serve_all, started,
}
use rdp_ext.Runtime.WtsRuntime.Working.Jobs.{IsWorking}
use rdp_ext.Runtime.WtsRuntime.Working.Moves.{seen, IsLive}
use rdp_ext.Runtime.WtsRuntime.Working.Turns.{
  arrived, has_stop, run-append, IsFitWork, Turned, serve-Turned, serve_all-stopped, stop-stops,
}

module _ (sampler : Sampler) where
  received-append :
      (es fs : List (Reporting.Event sampler))
      → received sampler (es ++ fs) ≡ received sampler es ++ received sampler fs
  received-append [] fs = refl
  received-append (Reporting.receives bytes ∷ es) fs = ap (λ bs. bytes ∷ bs) (received-append es fs)
  received-append (Reporting.connects ∷ es) fs = received-append es fs
  received-append (Reporting.disconnects ∷ es) fs = received-append es fs
  received-append (Reporting.runs a input ∷ es) fs = received-append es fs
  received-append (Reporting.fires input ∷ es) fs = received-append es fs

  module _ (archive : Archive) where
    -- `v` is what a process makes of a history that begins where `u` stands.
    record Followed (u v : Worker sampler) (got : List Buffer) (stopped : Bool) : Type 0 where
      history : List (Reporting.Event sampler)
      machine : v.machine ≡ (run sampler archive (seen sampler archive u) history).machine
      timer : v.timer ≡ (run sampler archive (seen sampler archive u) history).timer
      delivered : v.delivered ≡ (run sampler archive (seen sampler archive u) history).delivered
      whole :
          (stopped ≡ true)
          ⊎ (seen sampler archive v ≡ run sampler archive (seen sampler archive u) history)
      got_same : received sampler history ≡ got
      fits : All (IsFitEvent sampler archive) history

    join :
        {u v w : Worker sampler} {got more : List Buffer} {stopped : Bool}
        → Turned sampler archive u v got
        → Followed v w more stopped
        → Followed u w (got ++ more) stopped
    join {u} {v} t f =
        let same =
          run-append sampler archive (seen sampler archive u) t.moves f.history
          ∙ ap (λ p. run sampler archive p f.history) (sym t.same) in
        record {
          history = t.moves ++ f.history;
          machine = rw same f.machine;
          timer = rw same f.timer;
          delivered = rw same f.delivered;
          whole = rw same f.whole;
          got_same = received-append t.moves f.history ∙ rw (t.got_same, f.got_same) refl;
          fits = All-append (IsFitEvent sampler archive) t.moves f.history t.fits f.fits;
        }

    serve_all-Followed :
        (u : Worker sampler) (es : List (Event sampler))
        → IsLive sampler archive u
        → All (IsFitWork sampler archive) es
        → Followed u (serve_all sampler archive u es) (arrived sampler es) (has_stop sampler es)
    unfolding serve_all run serve stop
    serve_all-Followed u [] l f = record {
      history = [];
      machine = refl;
      timer = refl;
      delivered = refl;
      whole = inr refl;
      got_same = refl;
      fits = tt;
    }
    serve_all-Followed u (works a input address ∷ es) l f =
        let t = serve-Turned sampler archive u (works a input address) l f.0 refl in
        join t (serve_all-Followed (serve sampler archive u (works a input address)) es t.live f.1)
    serve_all-Followed u (connects ∷ es) l f =
        let t = serve-Turned sampler archive u connects l f.0 refl in
        join t (serve_all-Followed (serve sampler archive u connects) es t.live f.1)
    serve_all-Followed u (disconnects ∷ es) l f =
        let t = serve-Turned sampler archive u disconnects l f.0 refl in
        join t (serve_all-Followed (serve sampler archive u disconnects) es t.live f.1)
    serve_all-Followed u (receives bytes ∷ es) l f =
        let t = serve-Turned sampler archive u (receives bytes) l f.0 refl in
        join t (serve_all-Followed (serve sampler archive u (receives bytes)) es t.live f.1)
    serve_all-Followed u (expires n error ∷ es) l f =
        let t = serve-Turned sampler archive u (expires n error) l f.0 refl in
        join t (serve_all-Followed (serve sampler archive u (expires n error)) es t.live f.1)
    serve_all-Followed u (stops on_worker ∷ es) l f =
        let (m, t, d) =
          serve_all-stopped sampler archive (serve sampler archive u (stops on_worker)) es
            (stop-stops on_worker u.executor l.working) in
        record {
          history = [];
          machine = m;
          timer = t;
          delivered = d;
          whole = inl refl;
          got_same = refl;
          fits = tt;
        }

    started-IsLive : IsLive sampler archive (started sampler)
    unfolding started Executor.start IsWorking
    started-IsLive = record { working = (refl, refl); fine = tt }

    -- The executor runs the server's process, until it is stopped. From the start of a new runtime, and where the
    -- buffers that arrive and the samples that are read fit their types, let the worker run handlers, timers expire,
    -- the transport call the controller and threads call `stop`, in any order and also from a task, and also where
    -- the sampler throws. Some history of the process, whose buffers are those that arrived before the first stop and
    -- which fits its types, leads to the same machine, timer and delivered buffers; without a stop, the handlers of
    -- asio's strand and the timers that wait are also the tasks and the callbacks that wait in that process.
    pub server_worker_follows :
        (es : List (Event sampler))
        → All (IsFitWork sampler archive) es
        → let u = serve_all sampler archive (started sampler) es in
          (history : List (Reporting.Event sampler)) × (u.machine
            ≡ (run sampler archive (new sampler) history).machine)
          × (u.timer ≡ (run sampler archive (new sampler) history).timer)
          × (u.delivered ≡ (run sampler archive (new sampler) history).delivered)
          × ((has_stop sampler es ≡ true)
              ⊎ (seen sampler archive u ≡ run sampler archive (new sampler) history))
          × (received sampler history ≡ arrived sampler es)
          × All (IsFitEvent sampler archive) history
    unfolding started Executor.start
    server_worker_follows es f =
        let r = serve_all-Followed (started sampler) es started-IsLive f in
        (r.history, r.machine, r.timer, r.delivered, r.whole, r.got_same, r.fits)
