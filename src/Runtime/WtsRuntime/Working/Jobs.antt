-- ===== src/Runtime/WtsRuntime/Working/Jobs.antt =====
-- The handlers that the server's executor holds, as tasks and callbacks of its process (src/runtime/executor.cpp).
use rdp_ext.Common.{
  ℕ, zero, suc, ◌+◌, ◌≡◌, refl, sym, ap, ◌∙◌, true, false, List, [], ◌∷◌, ◌++◌, Option, none, some,
  All, length, length-append, arith,
}
use mathlib.Core.List.{append_assoc}
use rdp_ext.Telemetry.Sampler.{Sampler}
use rdp_ext.Telemetry.Timer.{TimerControl, schedule_post_sample, handle_sample}
use rdp_ext.Telemetry.Timer
use rdp_ext.Telemetry.Timer.Chains.{scheduled}
use rdp_ext.Runtime.Executor.{
  Executor, post, schedule, stop, run_posted, timer_done, register_timer,
}
use rdp_ext.Runtime.Executor
use rdp_ext.Runtime.Executor.Queue.{Handler, posted, waited, task_of, handle}
use rdp_ext.Logic.Server.Controller.{
  Task, TaskOutcome, on_connected, on_disconnected, on_bytes, telemetry_start, telemetry_stop,
  run_task,
}
use rdp_ext.Logic.Server.Controller
use rdp_ext.Logic.Server.Reporting.{Process, sample_posts, run_first, fire, advance, run, new}
use rdp_ext.Logic.Server.Reporting
use rdp_ext.Runtime.WtsRuntime.Working.{
  Job, of_controller, sample, post_all, schedule_all, behind, expired, drive,
}

-- The tasks among what the strand holds, and the callbacks of the timer.
abbrev pub tasks_of : Job → List Task
tasks_of (of_controller task) = task ∷ []
tasks_of sample = []

abbrev pub tasks_in : List (Handler Job) → List Task
tasks_in [] = []
tasks_in (h ∷ hs) = tasks_of (task_of h) ++ tasks_in hs

abbrev pub samples_of : Job → ℕ
samples_of (of_controller task) = 0
samples_of sample = 1

abbrev pub samples_in : List (Handler Job) → ℕ
samples_in [] = 0
samples_in (h ∷ hs) = samples_of (task_of h) + samples_in hs

pub tasks_in-append :
    (xs ys : List (Handler Job)) → tasks_in (xs ++ ys) ≡ tasks_in xs ++ tasks_in ys
tasks_in-append [] ys = refl
tasks_in-append (h ∷ xs) ys =
    ap (λ ts. tasks_of (task_of h) ++ ts) (tasks_in-append xs ys)
    ∙ sym (append_assoc (tasks_of (task_of h)) (tasks_in xs) (tasks_in ys))

pub samples_in-append :
    (xs ys : List (Handler Job)) → samples_in (xs ++ ys) ≡ samples_in xs + samples_in ys
samples_in-append [] ys = omega arith
samples_in-append (h ∷ xs) ys = omega (arith, samples_in-append xs ys)

unfoldable pub IsWorking : Executor → Type 0
IsWorking e = (e.started ≡ true) × (e.stopping ≡ false)

-- No timer was cancelled.
abbrev pub IsFine : Handler Job → Type 0
IsFine (posted job) = Unit
IsFine (waited timer error job) = error ≡ false

pub post_all-Posts :
    (e : Executor) (tasks : List Task)
    → IsWorking e
    → (tasks_in (post_all e tasks) ≡ tasks)
      × (samples_in (post_all e tasks) ≡ 0)
      × All IsFine (post_all e tasks)
unfolding post_all post IsWorking
post_all-Posts e [] w = (refl, refl, tt)
post_all-Posts e (task ∷ tasks) w = ground (arith, post_all-Posts e tasks w)

pub schedule_all-IsWorking :
    (e : Executor) (address : ℕ) (cs : List Timer.Call)
    → IsWorking e
    → IsWorking (schedule_all e address cs).0
      × (length (schedule_all e address cs).1 ≡ scheduled cs)
unfolding schedule_all schedule register_timer IsWorking
schedule_all-IsWorking e address [] w = (w, refl)
schedule_all-IsWorking e address (handle_sample s ∷ cs) w = schedule_all-IsWorking e address cs w
schedule_all-IsWorking e address (schedule_post_sample delay ∷ cs) w = ground (
  arith,
  w.0,
  w.1,
  schedule_all-IsWorking (record e { timers = Executor.insert address e.timers }) address cs w,
)

pub handle-runs :
    (e : Executor) (h : Handler Job)
    → IsWorking e
    → IsFine h
    → IsWorking (handle e h).0 × ((handle e h).1 ≡ some (task_of h))
unfolding handle run_posted timer_done IsWorking
handle-runs e (posted job) w f = ground (arith, w.0, w.1)
handle-runs e (waited timer error job) w f = ground (arith, w.0, w.1)

behind-length :
    (t : ℕ) (x : Option (ℕ × List ℕ)) (n : ℕ)
    → ((one : ℕ) (others : List ℕ) → x ≡ some (one, others) → n ≡ suc (length others))
    → (one : ℕ) (others : List ℕ) → behind t x ≡ some (one, others)
    → suc n ≡ suc (length others)
behind-length t none n h one others e = ground arith
behind-length t (some (first, rest)) n h one others e = ground (arith, h first rest refl)

pub expired-length :
    (n : ℕ) (ts : List ℕ) (one : ℕ) (others : List ℕ)
    → expired n ts ≡ some (one, others)
    → length ts ≡ suc (length others)
expired-length n [] one others e = ground arith
expired-length zero (t ∷ ts) one others e = ground arith
expired-length (suc n) (t ∷ ts) one others e =
    behind-length t (expired n ts) (length ts) (expired-length n ts) one others e

module _ (sampler : Sampler) where
  pub drive-IsWorking :
      (input : sampler.Input) (address : ℕ) (e : Executor) (t : TimerControl sampler)
      (cs : List Controller.Call)
      → IsWorking e
      → let (last, timer, more) = drive sampler input address e t cs in
        IsWorking last
        × (timer ≡ (Reporting.drive sampler input t cs).0)
        × (length more ≡ (Reporting.drive sampler input t cs).1)
  unfolding drive Reporting.drive
  drive-IsWorking input address e t [] w = (w, refl, refl)
  drive-IsWorking input address e t (telemetry_start ∷ cs) w =
      let begun = Timer.start sampler t input in
      let (working, count) = schedule_all-IsWorking e address begun.calls w in
      let (last, same, more) =
        drive-IsWorking input address (schedule_all e address begun.calls).0 begun.timer cs
          working in
      (
        last,
        same,
        length-append (schedule_all e address begun.calls).1 _ ∙ omega (arith, count, more),
      )
  drive-IsWorking input address e t (telemetry_stop ∷ cs) w =
      drive-IsWorking input address e (Timer.stop sampler t) cs w
  drive-IsWorking input address e t (Controller.post task ∷ cs) w =
      drive-IsWorking input address e t cs w
  drive-IsWorking input address e t (Controller.transport_send bytes ∷ cs) w =
      drive-IsWorking input address e t cs w
  drive-IsWorking input address e t (Controller.transport_close ∷ cs) w =
      drive-IsWorking input address e t cs w
