-- ===== src/Runtime/WtsRuntime/Serving/Moves.antt =====
-- How the turns, the tasks and the callbacks keep the machine in step with the transport.
use rdp_ext.Common.{ℕ, zero, suc, ◌≡◌, refl, ap, ◌∙◌, Bool, true, false, List, [], ◌∷◌, ◌++◌, some}
use rdp_ext.Protocol.Serializer.{Archive}
use rdp_ext.Telemetry.Sampler.{Sampler}
use rdp_ext.Telemetry.Timer.{handle_sample, schedule_post_sample}
use rdp_ext.Telemetry.Timer
use rdp_ext.Logic.Base.{Ambient}
use rdp_ext.Logic.Server.{ServerState}
use rdp_ext.Logic.Server.Controller.{
  Task, run_task, on_connected, on_disconnected, on_bytes, on_sample,
}
use rdp_ext.Logic.Server.Controller.Strand.{posts}
use rdp_ext.Logic.Server.Reporting.{
  Process, run_first, fire, sample_posts, connects, disconnects, receives, fires, runs, advance,
}
use rdp_ext.Logic.Server.Reporting
use rdp_ext.Transport.Wts.{
  os, write, call_connected, call_disconnected, call_bytes, report, sleep, is_connected,
}
use rdp_ext.Transport.Wts
use rdp_ext.Transport.Wts.Reading.Alternation.{follows, follows-append}
use rdp_ext.Runtime.WtsRuntime.Serving.{hear}
use rdp_ext.Runtime.WtsRuntime.Serving.Link.{
  arrivals, arrivals-append, is_awaiting, Heeds, task-Heeds, task-arrivals,
}

append-Heeds :
    (s : ServerState) (ts more : List Task) (on next : Bool)
    → Heeds on s ts
    → follows on (arrivals more) ≡ some next
    → Heeds next s (ts ++ more)
append-Heeds s ts more on next (l, f) g = (
  l,
  rw (arrivals-append ts more)
      (follows-append (is_awaiting s.connection_state) (arrivals ts) (arrivals more) f g),
)

module _ (sampler : Sampler) (archive : Archive) where
  abbrev pub Heeding : Bool → Process sampler → Type 0
  Heeding on p = Heeds on p.machine p.strand

  pub hear-Heeding :
      (cs : List Wts.Call) (p : Process sampler) (on next : Bool)
      → Heeding on p
      → follows on cs ≡ some next
      → Heeding next (hear sampler archive p cs)
  unfolding hear advance on_connected on_disconnected on_bytes
  hear-Heeding [] p on next h f = (h.0, h.1 ∙ f)
  hear-Heeding (call_connected ∷ cs) p false next h f =
      hear-Heeding cs _ true next
        (append-Heeds p.machine p.strand (posts on_connected) false true h refl) f
  hear-Heeding (call_connected ∷ cs) p true next h f = absurd (cc)
  hear-Heeding (call_disconnected ∷ cs) p true next h f =
      hear-Heeding cs _ false next
        (append-Heeds p.machine p.strand (posts on_disconnected) true false h refl) f
  hear-Heeding (call_disconnected ∷ cs) p false next h f = absurd (cc)
  hear-Heeding (call_bytes (b ∷ bs) ∷ cs) p true next h f =
      hear-Heeding cs _ true next
        (append-Heeds p.machine p.strand (posts (on_bytes (b ∷ bs))) true true h refl) f
  hear-Heeding (call_bytes (b ∷ bs) ∷ cs) p false next h f = absurd (cc)
  hear-Heeding (call_bytes [] ∷ cs) p on next h f = absurd (cc)
  hear-Heeding (os c ∷ cs) p on next h f = hear-Heeding cs p on next h f
  hear-Heeding (write c b ∷ cs) p on next h f = hear-Heeding cs p on next h f
  hear-Heeding (report ∷ cs) p on next h f = hear-Heeding cs p on next h f
  hear-Heeding (sleep n ∷ cs) p on next h f = hear-Heeding cs p on next h f

  pub run_first-Heeding :
      (p : Process sampler) (ts : List Task) (a : Ambient) (input : sampler.Input) (on : Bool)
      → p.strand ≡ ts
      → Heeding on p
      → Heeding on (run_first sampler archive p ts a input)
  unfolding run_first
  run_first-Heeding p [] a input on e h = h
  run_first-Heeding p (t ∷ rest) a input on e (l, f) =
      let started = (Timer.start sampler p.timer input).result in
      let r = run_task archive started a p.machine t in
      append-Heeds r.state rest (posts r.calls) on on
        (task-Heeds archive started a p.machine t rest on (l, rw e at f))
        (rw (task-arrivals archive started a p.machine t) refl)

  sample_posts-arrivals : (cs : List Timer.Call) → arrivals (sample_posts cs) ≡ []
  unfolding on_sample
  sample_posts-arrivals [] = refl
  sample_posts-arrivals (handle_sample sample ∷ cs) = sample_posts-arrivals cs
  sample_posts-arrivals (schedule_post_sample delay ∷ cs) = sample_posts-arrivals cs

  pub fire-Heeding :
      (p : Process sampler) (n : ℕ) (input : sampler.Input) (on : Bool)
      → Heeding on p
      → Heeding on (fire sampler archive p n input)
  unfolding fire
  fire-Heeding p zero input on h = h
  fire-Heeding p (suc left) input on h =
      let calls = (Timer.post_sample sampler p.timer input).calls in
      append-Heeds p.machine p.strand (sample_posts calls) on on h
        (rw (sample_posts-arrivals calls) refl)

  -- The process is one that its own events lead to.
  abbrev pub IsReached : Process sampler → Type 0
  IsReached p =
      (es : List (Reporting.Event sampler)) × (Reporting.run sampler archive (Reporting.new sampler)
          es
        ≡ p)

  run-advance :
      (p : Process sampler) (es : List (Reporting.Event sampler)) (e : Reporting.Event sampler)
      → Reporting.run sampler archive p (es ++ e ∷ [])
        ≡ advance sampler archive (Reporting.run sampler archive p es) e
  unfolding Reporting.run
  run-advance p [] e = refl
  run-advance p (x ∷ es) e = run-advance (advance sampler archive p x) es e

  pub advance-IsReached :
      (p : Process sampler) (e : Reporting.Event sampler)
      → IsReached p
      → IsReached (advance sampler archive p e)
  advance-IsReached p e (es, r) = (
    es ++ e ∷ [],
    run-advance (Reporting.new sampler) es e ∙ ap (λ q. advance sampler archive q e) r,
  )

  pub hear-IsReached :
      (cs : List Wts.Call) (p : Process sampler)
      → IsReached p
      → IsReached (hear sampler archive p cs)
  unfolding hear
  hear-IsReached [] p r = r
  hear-IsReached (call_connected ∷ cs) p r = hear-IsReached cs _ (advance-IsReached p connects r)
  hear-IsReached (call_disconnected ∷ cs) p r =
      hear-IsReached cs _ (advance-IsReached p disconnects r)
  hear-IsReached (call_bytes b ∷ cs) p r = hear-IsReached cs _ (advance-IsReached p (receives b) r)
  hear-IsReached (os c ∷ cs) p r = hear-IsReached cs p r
  hear-IsReached (write c b ∷ cs) p r = hear-IsReached cs p r
  hear-IsReached (report ∷ cs) p r = hear-IsReached cs p r
  hear-IsReached (sleep n ∷ cs) p r = hear-IsReached cs p r
