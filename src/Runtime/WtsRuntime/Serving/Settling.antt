-- ===== src/Runtime/WtsRuntime/Serving/Settling.antt =====
-- That the server comes to follow its transport.
use rdp_ext.Common.{◌≡◌, refl, ap, sym, ◌∙◌, List, [], ◌∷◌, ◌++◌}
use mathlib.Core.Path.{subst}
use mathlib.Core.List.{append_assoc, append-nil}
use rdp_ext.Protocol.Serializer.{Archive, IsLawful}
use rdp_ext.Telemetry.Sampler.{Sampler}
use rdp_ext.Telemetry.Timer
use rdp_ext.Logic.Base.{Ambient}
use rdp_ext.Logic.Server.Controller.{Task, run_task}
use rdp_ext.Logic.Server.Controller.Strand.{posts}
use rdp_ext.Logic.Server.Reporting.{Process, run_first, runs, advance}
use rdp_ext.Runtime.WtsRuntime.Serving.{Server, Event, task, serve, serve_all, beginning}
use rdp_ext.Runtime.WtsRuntime.Serving.Link.{arrivals, arrivals-append, task-arrivals}
use rdp_ext.Runtime.WtsRuntime.Serving.Idle.{Serves, serving_follows}

module _ (sampler : Sampler) (archive : Archive) where
  -- One run of the strand for each of the tasks.
  unfoldable pub each : List Task → Ambient → sampler.Input → List (Event sampler archive)
  each [] a input = []
  each (t ∷ ts) a input = task a input ∷ each ts a input

  run_leaves :
      (p : Process sampler) (t : Task) (rest : List Task) (a : Ambient) (input : sampler.Input)
      → p.strand ≡ t ∷ rest
      → (more : List Task) × ((advance sampler archive p (runs a input)).strand ≡ rest ++ more)
        × (arrivals more ≡ [])
  unfolding advance run_first
  run_leaves p t rest a input e =
      let started = (Timer.start sampler p.timer input).result in
      (
        posts (run_task archive started a p.machine t).calls,
        ap (λ ts. (run_first sampler archive p ts a input).strand) e,
        task-arrivals archive started a p.machine t,
      )

  -- The first tasks run, and what they post holds no call of a handler.
  drained :
      (xs ys : List Task) (u : Server sampler archive) (a : Ambient) (input : sampler.Input)
      → u.process.strand ≡ xs ++ ys
      → arrivals ys ≡ []
      → let v = serve_all sampler archive u (each xs a input) in
        (v.transport ≡ u.transport) × (arrivals v.process.strand ≡ [])
  unfolding each serve_all serve advance
  drained [] ys u a input e n = (refl, rw e n)
  drained (x ∷ xs) ys u a input e n =
      let (more, strand, none) = run_leaves u.process x (xs ++ ys) a input e in
      drained xs (ys ++ more) (serve sampler archive u (task a input)) a input
        (strand ∙ append_assoc xs ys more) (rw (arrivals-append ys more, n) none)

  serve_all-append :
      (u : Server sampler archive) (es ds : List (Event sampler archive))
      → serve_all sampler archive u (es ++ ds)
        ≡ serve_all sampler archive (serve_all sampler archive u es) ds
  unfolding serve_all
  serve_all-append u [] ds = refl
  serve_all-append u (e ∷ es) ds = serve_all-append (serve sampler archive u e) es ds

  -- The server comes to follow its transport, where each stop and close of another thread falls between
  -- two turns of the transport's loop. Over a lawful archive, let whole turns, with whatever the system
  -- answers, such stops and closes, tasks and callbacks come in any order from the beginning of `run`.
  -- The strand has to run just the tasks that wait now. Then, with the transport as it is, the machine
  -- has handled the connection where there is one; and where there is none, it is Disconnected,
  -- telemetry is disabled, and the timer does not run.
  pub serving_settles :
      (lawful : IsLawful archive) (es : List (Event sampler archive)) (a : Ambient)
      (input : sampler.Input)
      → let u = serve_all sampler archive (beginning sampler archive) es in
        let v = serve_all sampler archive u (each u.process.strand a input) in
        (v.transport ≡ u.transport) × Serves sampler archive v
  serving_settles lawful es a input =
      let start = beginning sampler archive in
      let u = serve_all sampler archive start es in
      let ds = each u.process.strand a input in
      let (same, none_left) =
        drained u.process.strand [] u a input (sym (append-nil u.process.strand)) refl in
      let joined = serve_all-append start es ds in
      (
        same,
        subst (Serves sampler archive) joined (
            serving_follows sampler archive lawful (es ++ ds)
              (ap (λ w. arrivals w.process.strand) joined ∙ none_left)),
      )
