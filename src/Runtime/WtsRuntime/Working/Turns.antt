-- ===== src/Runtime/WtsRuntime/Working/Turns.antt =====
-- What an event of the server's executor does to its process, before a stop and behind it (src/runtime/executor.cpp).
use rdp_ext.Common.{
  ℕ, suc, ◌≡◌, refl, ◌∙◌, Bool, true, false, ◌&&◌, List, [], ◌∷◌, ◌++◌, Option, none, some, All,
  All-append, length, arith,
}
use mathlib.Core.List.{append-nil}
use rdp_ext.Protocol.Serializer.{Archive, Buffer}
use rdp_ext.Telemetry.Sampler.{Sampler}
use rdp_ext.Runtime.Executor.{Executor, stop, run_posted, timer_done}
use rdp_ext.Runtime.Executor.Queue.{Handler, posted, waited, task_of, handle}
use rdp_ext.Runtime.Executor.Queue.Order.{handle-stopping}
use rdp_ext.Logic.Base.{Ambient}
use rdp_ext.Logic.Server.Controller.{on_connected, on_disconnected, on_bytes}
use rdp_ext.Logic.Server.Controller.Strand.{posts}
use rdp_ext.Logic.Server.Reporting.{Process, advance, run, new}
use rdp_ext.Logic.Server.Reporting
use rdp_ext.Logic.Server.Reporting.Refinement.{IsFitEvent, received}
use rdp_ext.Runtime.WtsRuntime.Working.{
  Job, of_controller, sample, expired, Worker, Event, works, connects, disconnects, receives,
  expires, stops, expire, execute, work, serve, serve_all,
}
use rdp_ext.Runtime.WtsRuntime.Working.Jobs.{
  tasks_in, tasks_in-append, samples_in-append, IsWorking, IsFine, expired-length,
}
use rdp_ext.Runtime.WtsRuntime.Working.Moves.{
  seen, IsLive, posted-IsLive, work-IsLive, same_process, moves_at, event_of,
}

handle-stopped : (e : Executor) (h : Handler Job) → e.stopping ≡ true → (handle e h).1 ≡ none
unfolding handle run_posted timer_done
handle-stopped e (posted job) s = ground arith
handle-stopped e (waited timer error job) s = ground arith

pub stop-stops : (b : Bool) (e : Executor) → IsWorking e → (stop {Task = Job} b e).0.stopping ≡ true
unfolding stop IsWorking
stop-stops b e w = ground arith

module _ (sampler : Sampler) where
  -- The buffers that arrive before the first stop.
  abbrev pub arrived : List (Event sampler) → List Buffer
  arrived [] = []
  arrived (receives bytes ∷ es) = bytes ∷ arrived es
  arrived (stops on_worker ∷ es) = []
  arrived (_ ∷ es) = arrived es

  abbrev pub has_stop : List (Event sampler) → Bool
  has_stop [] = false
  has_stop (stops on_worker ∷ es) = true
  has_stop (_ ∷ es) = has_stop es

  pub run-append :
      (archive : Archive) (p : Process sampler) (es fs : List (Reporting.Event sampler))
      → run sampler archive p (es ++ fs) ≡ run sampler archive (run sampler archive p es) fs
  unfolding run
  run-append archive p [] fs = refl
  run-append archive p (e ∷ es) fs = run-append archive (advance sampler archive p e) es fs

  module _ (archive : Archive) where
    -- What an event brings fits its types.
    abbrev pub IsFitWork : Event sampler → Type 0
    IsFitWork (receives bytes) = IsFitEvent sampler archive (Reporting.receives bytes)
    IsFitWork (works a input address) = IsFitEvent sampler archive (Reporting.fires input)
    IsFitWork _ = Unit

    expire-IsLive :
        (u : Worker sampler) (x : Option (ℕ × List ℕ)) (error : Bool)
        → ((one : ℕ) (others : List ℕ)
            → x ≡ some (one, others)
            → length u.waits ≡ suc (length others))
        → IsLive sampler archive u
        → (seen sampler archive (expire sampler u x error) ≡ seen sampler archive u)
          × IsLive sampler archive (expire sampler u x error)
    unfolding expire IsWorking
    expire-IsLive u none error h l = (refl, l)
    expire-IsLive u (some (one, others)) error h l =
        let late : Handler Job = waited one (error && u.executor.stopping) sample in
        (
          same_process sampler archive _ _ refl refl
              (tasks_in-append u.queue (late ∷ []) ∙ append-nil (tasks_in u.queue))
              (omega (arith, samples_in-append u.queue (late ∷ []), h one others refl)) refl,
          record {
            working = l.working;
            fine = All-append IsFine u.queue (late ∷ []) l.fine (ground (arith, l.working.1), tt);
          },
        )

    -- What happened so far is that some moves of the process led from `u` to `v`.
    pub record Turned (u v : Worker sampler) (got : List Buffer) : Type 0 where
      pub moves : List (Reporting.Event sampler)
      pub same : seen sampler archive v ≡ run sampler archive (seen sampler archive u) moves
      pub live : IsLive sampler archive v
      pub got_same : received sampler moves ≡ got
      pub fits : All (IsFitEvent sampler archive) moves

    job-fits :
        (job : Job) (a : Ambient) (input : sampler.Input)
        → IsFitEvent sampler archive (Reporting.fires input)
        → All (IsFitEvent sampler archive) (event_of sampler archive job a input ∷ [])
          × (received sampler (event_of sampler archive job a input ∷ []) ≡ [])
    job-fits (of_controller task) a input f = ((tt, tt), refl)
    job-fits sample a input f = ((f, tt), refl)

    moves_at-fits :
        (queue : List (Handler Job)) (a : Ambient) (input : sampler.Input)
        → IsFitEvent sampler archive (Reporting.fires input)
        → All (IsFitEvent sampler archive) (moves_at sampler archive queue a input)
          × (received sampler (moves_at sampler archive queue a input) ≡ [])
    moves_at-fits [] a input f = (tt, refl)
    moves_at-fits (h ∷ rest) a input f = job-fits (task_of h) a input f

    work-Turned :
        (u : Worker sampler) (a : Ambient) (input : sampler.Input) (address : ℕ)
        → IsLive sampler archive u
        → IsFitEvent sampler archive (Reporting.fires input)
        → Turned u (serve sampler archive u (works a input address)) []
    unfolding serve
    work-Turned u a input address l f =
        let (same, live) = work-IsLive sampler archive u u.queue a input address l in
        let (fits, silent) = moves_at-fits u.queue a input f in
        record {
          moves = moves_at sampler archive u.queue a input;
          same = same;
          live = live;
          got_same = silent;
          fits = fits;
        }

    pub serve-Turned :
        (u : Worker sampler) (e : Event sampler)
        → IsLive sampler archive u
        → IsFitWork e
        → has_stop (e ∷ []) ≡ false
        → Turned u (serve sampler archive u e) (arrived (e ∷ []))
    unfolding serve run advance
    serve-Turned u (works a input address) l f n = work-Turned u a input address l f
    serve-Turned u connects l f n =
        let (same, live) = posted-IsLive sampler archive u (posts on_connected) l in
        record {
          moves = Reporting.connects ∷ [];
          same = same;
          live = live;
          got_same = refl;
          fits = (tt, tt);
        }
    serve-Turned u disconnects l f n =
        let (same, live) = posted-IsLive sampler archive u (posts on_disconnected) l in
        record {
          moves = Reporting.disconnects ∷ [];
          same = same;
          live = live;
          got_same = refl;
          fits = (tt, tt);
        }
    serve-Turned u (receives bytes) l f n =
        let (same, live) = posted-IsLive sampler archive u (posts (on_bytes bytes)) l in
        record {
          moves = Reporting.receives bytes ∷ [];
          same = same;
          live = live;
          got_same = refl;
          fits = (f, tt);
        }
    serve-Turned u (expires k error) l f n =
        let (same, live) = expire-IsLive u (expired k u.waits) error (expired-length k u.waits) l in
        record { moves = []; same = same; live = live; got_same = refl; fits = tt }
    serve-Turned u (stops b) l f n = absurd (cc)

    -- Nothing but the executor, its queue and its timers changes behind a stop.
    abbrev SameOutput : Worker sampler → Worker sampler → Type 0
    SameOutput u v = (u.machine ≡ v.machine) × (u.timer ≡ v.timer) × (u.delivered ≡ v.delivered)

    work-stopped :
        (u : Worker sampler) (queue : List (Handler Job)) (a : Ambient) (input : sampler.Input)
        (address : ℕ)
        → u.executor.stopping ≡ true
        → SameOutput (work sampler archive u queue a input address) u
          × ((work sampler archive u queue a input address).executor.stopping ≡ true)
    unfolding work execute
    work-stopped u [] a input address s = ((refl, refl, refl), s)
    work-stopped u (handler ∷ rest) a input address s =
        rw (handle-stopped u.executor handler s)
          ((refl, refl, refl), handle-stopping u.executor handler ∙ s)

    expire-stopped :
        (u : Worker sampler) (x : Option (ℕ × List ℕ)) (error : Bool)
        → u.executor.stopping ≡ true
        → SameOutput (expire sampler u x error) u
          × ((expire sampler u x error).executor.stopping ≡ true)
    unfolding expire
    expire-stopped u none error s = ((refl, refl, refl), s)
    expire-stopped u (some (one, others)) error s = ((refl, refl, refl), s)

    serve-stopped :
        (u : Worker sampler) (e : Event sampler)
        → u.executor.stopping ≡ true
        → SameOutput (serve sampler archive u e) u
          × ((serve sampler archive u e).executor.stopping ≡ true)
    unfolding serve stop
    serve-stopped u (works a input address) s = work-stopped u u.queue a input address s
    serve-stopped u connects s = ((refl, refl, refl), s)
    serve-stopped u disconnects s = ((refl, refl, refl), s)
    serve-stopped u (receives bytes) s = ((refl, refl, refl), s)
    serve-stopped u (expires k error) s = expire-stopped u (expired k u.waits) error s
    serve-stopped u (stops on_worker) s = ((refl, refl, refl), ground arith)

    pub serve_all-stopped :
        (u : Worker sampler) (es : List (Event sampler))
        → u.executor.stopping ≡ true
        → SameOutput (serve_all sampler archive u es) u
    unfolding serve_all
    serve_all-stopped u [] s = (refl, refl, refl)
    serve_all-stopped u (e ∷ es) s =
        let ((m, t, d), s') = serve-stopped u e s in
        let (m', t', d') = serve_all-stopped (serve sampler archive u e) es s' in
        (m' ∙ m, t' ∙ t, d' ∙ d)
