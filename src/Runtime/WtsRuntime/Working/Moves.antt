-- ===== src/Runtime/WtsRuntime/Working/Moves.antt =====
-- The turns of the server's executor as moves of its process (src/runtime/executor.cpp).
use rdp_ext.Common.{
  ℕ, suc, ◌+◌, ◌≡◌, refl, ap, ◌∙◌, List, [], ◌∷◌, ◌++◌, some, All, All-append, length,
  length-append, arith,
}
use rdp_ext.Protocol.Serializer.{Archive}
use rdp_ext.Telemetry.Sampler.{Sampler}
use rdp_ext.Telemetry.Timer.{TimerControl, schedule_post_sample, handle_sample}
use rdp_ext.Telemetry.Timer
use rdp_ext.Telemetry.Timer.Chains.{scheduled}
use rdp_ext.Runtime.Executor.{Executor}
use rdp_ext.Runtime.Executor.Queue.{Handler, task_of, handle}
use rdp_ext.Logic.Base.{Ambient}
use rdp_ext.Logic.Server.Controller.{Task, TaskOutcome, run_task}
use rdp_ext.Logic.Server.Controller.Strand.{posts}
use rdp_ext.Logic.Server.Reporting.{Process, sample_posts, run_first, fire, advance, run, new}
use rdp_ext.Logic.Server.Reporting
use rdp_ext.Runtime.WtsRuntime.Working.{
  Job, of_controller, sample, post_all, schedule_all, Worker, drive, after_task, after_sample,
  execute, work,
}
use rdp_ext.Runtime.WtsRuntime.Working.Jobs.{
  tasks_of, tasks_in, samples_of, samples_in, tasks_in-append, samples_in-append, IsWorking, IsFine,
  post_all-Posts, schedule_all-IsWorking, handle-runs, drive-IsWorking,
}

module _ (sampler : Sampler) where
  module _ (archive : Archive) where
    -- The process that an executor runs.
    abbrev pub seen : Worker sampler → Process sampler
    seen u = record {
      machine = u.machine;
      timer = u.timer;
      strand = tasks_in u.queue;
      callbacks = length u.waits + samples_in u.queue;
      delivered = u.delivered;
    }

    pub record IsLive (u : Worker sampler) : Type 0 where
      pub working : IsWorking u.executor
      pub fine : All IsFine u.queue

    pub same_process :
        (p q : Process sampler)
        → p.machine ≡ q.machine
        → p.timer ≡ q.timer
        → p.strand ≡ q.strand
        → p.callbacks ≡ q.callbacks
        → p.delivered ≡ q.delivered
        → p ≡ q
    same_process p q m t s c d = cc

    -- Tasks are posted behind what the strand holds.
    pub posted-IsLive :
        (u : Worker sampler) (tasks : List Task)
        → IsLive u
        → (seen (record u { queue = u.queue ++ post_all u.executor tasks })
            ≡ record (seen u) { strand = tasks_in u.queue ++ tasks })
          × IsLive (record u { queue = u.queue ++ post_all u.executor tasks })
    posted-IsLive u tasks l =
        let (ts, ns, fs) = post_all-Posts u.executor tasks l.working in
        (
          same_process _ _ refl refl
              (tasks_in-append u.queue _ ∙ ap (λ ys. tasks_in u.queue ++ ys) ts)
              (omega (arith, samples_in-append u.queue (post_all u.executor tasks), ns)) refl,
          record { working = l.working; fine = All-append IsFine u.queue _ l.fine fs },
        )

    task-IsLive :
        (u : Worker sampler) (e : Executor) (rest : List (Handler Job)) (input : sampler.Input)
        (address : ℕ) (r : TaskOutcome)
        → IsWorking e
        → All IsFine rest
        → (seen (after_task sampler u e rest input address r)
            ≡ Reporting.after_task sampler
                (record (seen u) { callbacks = length u.waits + samples_in rest })
                (tasks_in rest)
                input
                r)
          × IsLive (after_task sampler u e rest input address r)
    unfolding after_task Reporting.after_task
    task-IsLive u e rest input address r w f =
        let (ts, ns, fs) = post_all-Posts e (posts r.calls) w in
        let (last, same, more) = drive-IsWorking sampler input address e u.timer r.calls w in
        (
          same_process _ _ refl same (tasks_in-append rest _ ∙ ap (λ ys. tasks_in rest ++ ys) ts)
              (omega (
                arith,
                length-append u.waits (drive sampler input address e u.timer r.calls).2,
                more,
                samples_in-append rest (post_all e (posts r.calls)),
                ns,
              ))
              refl,
          record { working = last; fine = All-append IsFine rest _ f fs },
        )

    sample-IsLive :
        (u : Worker sampler) (e : Executor) (rest : List (Handler Job)) (address : ℕ)
        (fired : Timer.TimerOutcome sampler)
        → IsWorking e
        → All IsFine rest
        → (seen (after_sample sampler u e rest address fired) ≡ record (seen u) {
          timer = fired.timer;
          strand = tasks_in rest ++ sample_posts fired.calls;
          callbacks = length u.waits + samples_in rest + scheduled fired.calls;
        })
          × IsLive (after_sample sampler u e rest address fired)
    unfolding after_sample
    sample-IsLive u e rest address fired w f =
        let (ts, ns, fs) = post_all-Posts e (sample_posts fired.calls) w in
        let (last, more) = schedule_all-IsWorking e address fired.calls w in
        (
          same_process _ _ refl refl (tasks_in-append rest _ ∙ ap (λ ys. tasks_in rest ++ ys) ts)
              (omega (
                arith,
                length-append u.waits (schedule_all e address fired.calls).1,
                more,
                samples_in-append rest (post_all e (sample_posts fired.calls)),
                ns,
              ))
              refl,
          record { working = last; fine = All-append IsFine rest _ f fs },
        )

    -- What a job of the executor is for the process.
    abbrev pub event_of : Job → Ambient → sampler.Input → Reporting.Event sampler
    event_of (of_controller task) a input = Reporting.runs a input
    event_of sample a input = Reporting.fires input

    job-IsLive :
        (u : Worker sampler) (e : Executor) (rest : List (Handler Job)) (job : Job) (a : Ambient)
        (input : sampler.Input) (address : ℕ)
        → IsWorking e
        → All IsFine rest
        → (seen (execute sampler archive u e rest (some job) a input address)
            ≡ advance sampler archive
                (record (seen u) {
                  strand = tasks_of job ++ tasks_in rest;
                  callbacks = length u.waits + (samples_of job + samples_in rest);
                })
                (event_of job a input))
          × IsLive (execute sampler archive u e rest (some job) a input address)
    unfolding execute advance run_first fire
    job-IsLive u e rest (of_controller task) a input address w f =
        let r = run_task archive (Timer.start sampler u.timer input).result a u.machine task in
        let (same, live) = task-IsLive u e rest input address r w f in
        (
          same
              ∙ ap
                  (λ c.
                    Reporting.after_task sampler (record (seen u) { callbacks = c }) (tasks_in rest)
                      input r)
                  (omega arith),
          live,
        )
    job-IsLive u e rest sample a input address w f =
        let fired = Timer.post_sample sampler u.timer input in
        let (same, live) = sample-IsLive u e rest address fired w f in
        let before : Process sampler = record (seen u) {
          strand = tasks_in rest;
          callbacks = length u.waits + (1 + samples_in rest);
        } in
        let one_more : suc (length u.waits + samples_in rest)
            ≡ length u.waits + (1 + samples_in rest) =
          omega arith in
        (same ∙ ap (λ c. fire sampler archive before c input) one_more, live)

    -- The moves of the process at a turn of the worker.
    abbrev pub moves_at :
        List (Handler Job) → Ambient → sampler.Input → List (Reporting.Event sampler)
    moves_at [] a input = []
    moves_at (h ∷ rest) a input = event_of (task_of h) a input ∷ []

    pub work-IsLive :
        (u : Worker sampler) (queue : List (Handler Job)) (a : Ambient) (input : sampler.Input)
        (address : ℕ)
        → IsLive (record u { queue = queue })
        → (seen (work sampler archive (record u { queue = queue }) queue a input address)
            ≡ run sampler archive (seen (record u { queue = queue })) (moves_at queue a input))
          × IsLive (work sampler archive (record u { queue = queue }) queue a input address)
    unfolding work run
    work-IsLive u [] a input address l = (refl, l)
    work-IsLive u (h ∷ rest) a input address l =
        let (w, ran) = handle-runs u.executor h l.working l.fine.0 in
        rw ran (
          job-IsLive (record u { queue = h ∷ rest }) (handle u.executor h).0 rest (task_of h) a
            input address w l.fine.1)
