-- ===== src/Runtime/MstscRuntime/Working/Equivalence.antt =====
-- That the executor runs the client's process as a strand would, until it is stopped (src/runtime/executor.cpp).
use rdp_ext.Common.{
  ◌≡◌, refl, sym, ap, ◌∙◌, ◌⊎◌, inl, inr, Bool, true, false, List, [], ◌∷◌, ◌++◌, map, none, some,
  arith,
}
use mathlib.Core.Path.{subst}
use mathlib.Core.List.{map-append}
use rdp_ext.Protocol.Serializer.{Archive}
use rdp_ext.Runtime.Executor.{Executor, post, run_posted, timer_done, stop}
use rdp_ext.Runtime.Executor
use rdp_ext.Runtime.Executor.Queue.{Handler, posted, waited, handle}
use rdp_ext.Runtime.Executor.Queue.Order.{handle-stopping}
use rdp_ext.Logic.Base.{Ambient, PercentText}
use rdp_ext.Logic.Client.Controller.{Task, on_connected, on_disconnected, on_bytes, run_task}
use rdp_ext.Logic.Client.Controller.Strand.{posts}
use rdp_ext.Logic.Client.Process.{Process, new, advance, run, run_first, after_task}
use rdp_ext.Logic.Client.Process
use rdp_ext.Runtime.MstscRuntime.Working.{
  Worker, Event, works, connects, disconnects, receives, stops, post_all, after_execution, execute,
  work, serve, serve_all, started,
}

-- The events before the first stop, as those of the process.
abbrev pub until_stop : List Event → List Process.Event
until_stop [] = []
until_stop (works a ∷ es) = Process.runs a ∷ until_stop es
until_stop (connects ∷ es) = Process.connects ∷ until_stop es
until_stop (disconnects ∷ es) = Process.disconnects ∷ until_stop es
until_stop (receives bytes ∷ es) = Process.receives bytes ∷ until_stop es
until_stop (stops on_worker ∷ es) = []

abbrev pub has_stop : List Event → Bool
has_stop [] = false
has_stop (stops on_worker ∷ es) = true
has_stop (_ ∷ es) = has_stop es

IsWorking : Executor → Type 0
IsWorking e = (e.started ≡ true) × (e.stopping ≡ false)

post_all-posted :
    (e : Executor) (tasks : List Task) → IsWorking e → post_all e tasks ≡ map posted tasks
unfolding post_all post IsWorking
post_all-posted e [] w = refl
post_all-posted e (task ∷ tasks) w = ground (arith, post_all-posted e tasks w)

posted-runs : (e : Executor) (task : Task) → IsWorking e → run_posted e task ≡ some task
unfolding run_posted IsWorking
posted-runs e task w = ground (arith, w.1)

handle-stopped : (e : Executor) (h : Handler Task) → e.stopping ≡ true → (handle e h).1 ≡ none
unfolding handle run_posted timer_done
handle-stopped e (posted task) s = ground arith
handle-stopped e (waited timer error task) s = ground arith

stop-stops : (b : Bool) (e : Executor) → IsWorking e → (stop {Task = Task} b e).0.stopping ≡ true
unfolding stop IsWorking
stop-stops b e w = ground arith

-- A process on an executor.
abbrev on : Executor → Process → Worker
on e p = record {
  executor = e;
  machine = p.machine;
  queue = map posted p.strand;
  delivered = p.delivered;
  logs = p.logs;
}

posted_all :
    (e : Executor) (strand tasks : List Task)
    → IsWorking e
    → map posted strand ++ post_all e tasks ≡ map posted (strand ++ tasks)
posted_all e strand tasks w = rw (post_all-posted e tasks w) (sym (map-append posted strand tasks))

module _ (percent : PercentText) (archive : Archive) where
  work-on :
      (e : Executor) (p : Process) (strand : List Task) (a : Ambient)
      → IsWorking e
      → p.strand ≡ strand
      → work percent archive (on e p) (map posted strand) a
        ≡ on e (run_first percent archive p strand a)
  unfolding work execute after_execution run_first after_task handle run_posted IsWorking
  work-on e p [] a w s = refl
  work-on e p (task ∷ rest) a w s =
      let r = run_task percent archive a p.machine task in
      ap (λ ran. execute percent archive (on e p) e (map posted rest) ran a) (posted-runs e task w)
      ∙ ap (λ q. record (on e (after_task p rest r)) { queue = q })
          (posted_all e rest (posts r.calls) w)

  post-on :
      (e : Executor) (p : Process) (tasks : List Task)
      → IsWorking e
      → record (on e p) { queue = map posted p.strand ++ post_all e tasks }
        ≡ on e (record p { strand = p.strand ++ tasks })
  post-on e p tasks w = ap (λ q. record (on e p) { queue = q }) (posted_all e p.strand tasks w)

  -- Nothing but the queue changes behind a stop.
  abbrev SameOutput : Worker → Worker → Type 0
  SameOutput u v = (u.machine ≡ v.machine) × (u.delivered ≡ v.delivered) × (u.logs ≡ v.logs)

  work-stopped :
      (u : Worker) (queue : List (Handler Task)) (a : Ambient)
      → u.executor.stopping ≡ true
      → SameOutput (work percent archive u queue a) u
        × ((work percent archive u queue a).executor.stopping ≡ true)
  unfolding work execute
  work-stopped u [] a s = ((refl, refl, refl), s)
  work-stopped u (handler ∷ rest) a s =
      rw (handle-stopped u.executor handler s)
        ((refl, refl, refl), handle-stopping u.executor handler ∙ s)

  serve-stopped :
      (u : Worker) (e : Event)
      → u.executor.stopping ≡ true
      → SameOutput (serve percent archive u e) u
        × ((serve percent archive u e).executor.stopping ≡ true)
  unfolding serve stop
  serve-stopped u (works a) s = work-stopped u u.queue a s
  serve-stopped u connects s = ((refl, refl, refl), s)
  serve-stopped u disconnects s = ((refl, refl, refl), s)
  serve-stopped u (receives bytes) s = ((refl, refl, refl), s)
  serve-stopped u (stops on_worker) s = ((refl, refl, refl), ground arith)

  serve_all-stopped :
      (u : Worker) (es : List Event)
      → u.executor.stopping ≡ true
      → SameOutput (serve_all percent archive u es) u
  unfolding serve_all
  serve_all-stopped u [] s = (refl, refl, refl)
  serve_all-stopped u (e ∷ es) s =
      let ((m, d, l), s') = serve-stopped u e s in
      let (m', d', l') = serve_all-stopped (serve percent archive u e) es s' in
      (m' ∙ m, d' ∙ d, l' ∙ l)

  abbrev Follows : Worker → Process → Bool → Type 0
  Follows u p stopped =
      (u.machine ≡ p.machine)
      × (u.delivered ≡ p.delivered)
      × (u.logs ≡ p.logs)
      × ((stopped ≡ true) ⊎ (u.queue ≡ map posted p.strand))

  from_same :
      {u v : Worker} (es : List Event) (p : Process) (stopped : Bool)
      → u ≡ v
      → Follows (serve_all percent archive v es) p stopped
      → Follows (serve_all percent archive u es) p stopped
  from_same es p stopped same f =
      subst (λ x. Follows (serve_all percent archive x es) p stopped) (sym same) f

  serve_all-Follows :
      (e : Executor) (p : Process) (es : List Event)
      → IsWorking e
      → Follows
          (serve_all percent archive (on e p) es)
          (run percent archive p (until_stop es))
          (has_stop es)
  unfolding serve_all serve run advance
  serve_all-Follows e p [] w = (refl, refl, refl, inr refl)
  serve_all-Follows e p (works a ∷ es) w =
      from_same es _ _ (work-on e p p.strand a w refl)
        (serve_all-Follows e (run_first percent archive p p.strand a) es w)
  serve_all-Follows e p (connects ∷ es) w =
      from_same es _ _ (post-on e p (posts on_connected) w) (serve_all-Follows e _ es w)
  serve_all-Follows e p (disconnects ∷ es) w =
      from_same es _ _ (post-on e p (posts on_disconnected) w) (serve_all-Follows e _ es w)
  serve_all-Follows e p (receives bytes ∷ es) w =
      from_same es _ _ (post-on e p (posts (on_bytes bytes)) w) (serve_all-Follows e _ es w)
  serve_all-Follows e p (stops b ∷ es) w =
      let (m, d, l) =
        serve_all-stopped (record (on e p) { executor = (stop {Task = Task} b e).0 }) es
          (stop-stops b e w) in
      (m, d, l, inl refl)

  -- The executor runs the client's process in the order of its posts, until it is stopped. From the start of a new
  -- runtime, let the worker run handlers, the transport call the controller and threads call `stop`, in any order
  -- and also from a task. The machine, what the transport was given and the log are those of the process in which
  -- the strand runs the tasks of the events before the first stop, one at a time and first come first served;
  -- without a stop, asio's strand holds the tasks that wait in that process, in their order.
  pub worker_follows :
      (es : List Event)
      → let u = serve_all percent archive started es in
        let p = run percent archive new (until_stop es) in
        (u.machine ≡ p.machine)
        × (u.delivered ≡ p.delivered)
        × (u.logs ≡ p.logs)
        × ((has_stop es ≡ true) ⊎ (u.queue ≡ map posted p.strand))
  unfolding started Executor.start IsWorking
  worker_follows es = serve_all-Follows _ new es (refl, refl)
