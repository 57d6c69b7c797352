-- ===== src/Logic/Client/Process/Logs.antt =====
-- What the log of the client's process says of the buffers that arrived (src/logic/client, src/runtime/executor.cpp).
use rdp_ext.Common.{◌≡◌, refl, sym, ap, ◌∙◌, inl, inr, List, [], ◌∷◌, ◌++◌, map}
use mathlib.Core.List.{append-nil, append_assoc, map-append}
use rdp_ext.Common.Except.{returned, Except-cases}
use rdp_ext.Logging.{LogRecord}
use rdp_ext.Protocol.Message.{Message}
use rdp_ext.Protocol.Loads.{loads, loads-append}
use rdp_ext.Protocol.Serializer.{Archive, IsLawful, Buffer, deserialize}
use rdp_ext.Protocol.Readable.{kept, readable, readable-append, complaint, refused, refused-append}
use rdp_ext.Runtime.Executor.{execute_task}
use rdp_ext.Logic.Base.{Ambient, PercentText}
use rdp_ext.Logic.Client.{
  ClientState, ClientEvent, message_received, transport_connected, transport_disconnected,
}
use rdp_ext.Logic.Client.Invariant.{Inv, initial-Inv, do_step-Inv}
use rdp_ext.Logic.Client.History.{message_of}
use rdp_ext.Logic.Client.Lines.{
  lines_with, lines_with-append, load_start, failure_start, load_line, failure_line,
  do_step-load_lines, do_step-failure_lines, execute_task-lines,
}
use rdp_ext.Logic.Client.Controller.{
  Task, step_bytes, step_connected, step_disconnected, send_bytes, close, step, run_task,
  on_connected, on_disconnected, on_bytes,
}
use rdp_ext.Logic.Client.Controller.Strand.{inputs, inputs-append, step-Steps, step-returns}
use rdp_ext.Logic.Client.Process.{
  Process, task_end, Event, runs, connects, disconnects, receives, new, after_task, run_first,
  advance, run,
}
use rdp_ext.Logic.Client.Process.Refinement.{brought, received}

module _ (percent : PercentText) (archive : Archive) (lawful : IsLawful archive) where
  abbrev load_lines_of : List Message → List LogRecord
  load_lines_of ms = map (load_line percent) (loads ms)

  -- The log tells of every buffer that is not on the strand any more.
  record Logged (now : ClientState) (strand : List Task) (logs : List LogRecord) (got : List Buffer)
      : Type 0 where
    valid : Inv now
    reports :
        lines_with load_start logs ++ load_lines_of (readable archive (inputs strand))
        ≡ load_lines_of (readable archive got)
    failures :
        lines_with failure_start logs ++ map failure_line (refused archive (inputs strand))
        ≡ map failure_line (refused archive got)

  abbrev IsLogged : Process → List Buffer → Type 0
  IsLogged p got = Logged p.machine p.strand p.logs got

  load_lines_of-append :
      (ms ns : List Message) → load_lines_of (ms ++ ns) ≡ load_lines_of ms ++ load_lines_of ns
  load_lines_of-append ms ns =
      rw (loads-append ms ns) (map-append (load_line percent) (loads ms) (loads ns))

  event-IsLogged :
      (p : Process) (got : List Buffer) (e : ClientEvent) (a : Ambient) (rest : List Task)
      → Inv p.machine
      → lines_with load_start p.logs
          ++ load_lines_of (message_of e ++ readable archive (inputs rest))
        ≡ load_lines_of (readable archive got)
      → lines_with failure_start p.logs ++ map failure_line (refused archive (inputs rest))
        ≡ map failure_line (refused archive got)
      → IsLogged (after_task p rest (step percent archive a p.machine e)) got
  unfolding after_task step execute_task
  event-IsLogged p got e a rest v r f =
      let (moved, i, o, t, b) = step-Steps percent archive lawful a p.machine e v in
      let ok = step-returns percent archive lawful a p.machine e v in
      let none_logged = ap (λ x. (execute_task (task_end x)).0) ok in
      record {
        valid = do_step-Inv percent a p.machine e v;
        reports =
            rw
              (
                none_logged,
                append-nil (p.logs ++ _),
                lines_with-append load_start p.logs _,
                do_step-load_lines percent a p.machine e,
                inputs-append rest _,
                i,
                append-nil (inputs rest),
              )
              (append_assoc (lines_with load_start p.logs) _ _
                ∙ ap (λ ls. lines_with load_start p.logs ++ ls)
                    (sym (load_lines_of-append (message_of e) (readable archive (inputs rest))))
                ∙ r);
        failures =
            rw
              (
                none_logged,
                append-nil (p.logs ++ _),
                lines_with-append failure_start p.logs _,
                do_step-failure_lines percent a p.machine e,
                append-nil (lines_with failure_start p.logs),
                inputs-append rest _,
                i,
                append-nil (inputs rest),
              )
              f;
      }

  still-IsLogged :
      (p : Process) (got : List Buffer) (rest : List Task)
      → Inv p.machine
      → lines_with load_start p.logs ++ load_lines_of (readable archive (inputs rest))
        ≡ load_lines_of (readable archive got)
      → lines_with failure_start p.logs ++ map failure_line (refused archive (inputs rest))
        ≡ map failure_line (refused archive got)
      → Logged p.machine
          (rest ++ [])
          (p.logs ++ [] ++ (execute_task (task_end (returned tt))).0)
          got
  unfolding execute_task
  still-IsLogged p got rest v r f =
      rw (append-nil rest, append-nil p.logs, append-nil p.logs)
        (record { valid = v; reports = r; failures = f })

  task-IsLogged :
      (p : Process) (got : List Buffer) (task : Task) (a : Ambient) (rest : List Task)
      → Logged p.machine (task ∷ rest) p.logs got
      → IsLogged (after_task p rest (run_task percent archive a p.machine task)) got
  unfolding after_task run_task
  task-IsLogged p got step_connected a rest l =
      event-IsLogged p got transport_connected a rest l.valid l.reports l.failures
  task-IsLogged p got step_disconnected a rest l =
      event-IsLogged p got transport_disconnected a rest l.valid l.reports l.failures
  task-IsLogged p got (step_bytes bytes) a rest l =
      elim (Except-cases (deserialize archive bytes)) [
        | inl (m, e) ↦
            rw (e, run_task)
              (event-IsLogged p got (message_received m) a rest l.valid
                (rw (ap (kept archive) e) at l.reports)
                (rw (ap (complaint archive) e) at l.failures))
        | inr (what, e) ↦
            let (no_report, one_failure) = execute_task-lines what in
            rw (e, run_task, append-nil rest, append-nil p.logs)
              (record {
                valid = l.valid;
                reports =
                    rw
                      (
                        lines_with-append load_start p.logs _,
                        no_report,
                        append-nil (lines_with load_start p.logs),
                      )
                      (rw (ap (kept archive) e) at l.reports);
                failures =
                    rw (lines_with-append failure_start p.logs _, one_failure)
                      (append_assoc (lines_with failure_start p.logs) _ _
                        ∙ (rw (ap (complaint archive) e) at l.failures));
              })
      ]
  task-IsLogged p got (send_bytes bytes) a rest l =
      still-IsLogged p got rest l.valid l.reports l.failures
  task-IsLogged p got close a rest l = still-IsLogged p got rest l.valid l.reports l.failures

  post-IsLogged :
      (p : Process) (got more : List Buffer) (tasks : List Task)
      → inputs tasks ≡ more
      → IsLogged p got
      → Logged p.machine (p.strand ++ tasks) p.logs (got ++ more)
  post-IsLogged p got more tasks i l = record {
    valid = l.valid;
    reports =
        rw
          (
            inputs-append p.strand tasks,
            i,
            readable-append archive (inputs p.strand) more,
            readable-append archive got more,
            load_lines_of-append (readable archive (inputs p.strand)) (readable archive more),
            load_lines_of-append (readable archive got) (readable archive more),
          )
          (sym (append_assoc (lines_with load_start p.logs) _ _)
            ∙ ap (λ ls. ls ++ load_lines_of (readable archive more)) l.reports);
    failures =
        rw
          (
            inputs-append p.strand tasks,
            i,
            refused-append archive (inputs p.strand) more,
            refused-append archive got more,
            map-append failure_line (refused archive (inputs p.strand)) (refused archive more),
            map-append failure_line (refused archive got) (refused archive more),
          )
          (sym (append_assoc (lines_with failure_start p.logs) _ _)
            ∙ ap (λ ls. ls ++ map failure_line (refused archive more)) l.failures);
  }

  first-IsLogged :
      (p : Process) (got : List Buffer) (strand : List Task) (a : Ambient)
      → p.strand ≡ strand
      → IsLogged p got
      → IsLogged (run_first percent archive p strand a) got
  unfolding run_first
  first-IsLogged p got [] a e l = l
  first-IsLogged p got (task ∷ rest) a e l = task-IsLogged p got task a rest (rw e at l)

  advance-IsLogged :
      (p : Process) (got : List Buffer) (e : Event)
      → IsLogged p got
      → IsLogged (advance percent archive p e) (got ++ brought e)
  unfolding advance on_connected on_disconnected on_bytes
  advance-IsLogged p got (runs a) l = rw (append-nil got) (first-IsLogged p got p.strand a refl l)
  advance-IsLogged p got connects l = post-IsLogged p got [] _ refl l
  advance-IsLogged p got disconnects l = post-IsLogged p got [] _ refl l
  advance-IsLogged p got (receives bytes) l = post-IsLogged p got (bytes ∷ []) _ refl l

  run-IsLogged :
      (p : Process) (got : List Buffer) (es : List Event)
      → IsLogged p got
      → IsLogged (run percent archive p es) (got ++ received es)
  unfolding run
  run-IsLogged p got [] l = rw (append-nil got) l
  run-IsLogged p got (e ∷ es) l = rw (sym (append_assoc got (brought e) (received es))) (
      run-IsLogged (advance percent archive p e) (got ++ brought e) es (advance-IsLogged p got e l))

  new-IsLogged : IsLogged new []
  new-IsLogged = record { valid = initial-Inv; reports = refl; failures = refl }

  -- The client logs the CPU loads that arrive. Over a lawful archive, let tasks and transport run in any order
  -- from the start, whatever arrives. The lines of the log that begin as a report of a load, and then those of
  -- the loads that wait on the strand, are one line for each load in the buffers that arrived, in their order.
  pub loads_logged :
      (es : List Event)
      → let p = run percent archive new es in
        lines_with load_start p.logs
          ++ map (load_line percent) (loads (readable archive (inputs p.strand)))
        ≡ map (load_line percent) (loads (readable archive (received es)))
  loads_logged es = (run-IsLogged new [] es new-IsLogged).reports

  -- A buffer that is no message costs one line of the log. Over a lawful archive, let tasks and transport run
  -- in any order from the start, whatever arrives. The executor's reports of exceptions in the log, and then
  -- those of the buffers that wait on the strand, are one line for each buffer that arrived and is no message,
  -- with the text of the serializer's exception, in the order of their arrival; no other task
  -- throws.
  pub bad_buffers_logged :
      (es : List Event)
      → let p = run percent archive new es in
        lines_with failure_start p.logs ++ map failure_line (refused archive (inputs p.strand))
        ≡ map failure_line (refused archive (received es))
  bad_buffers_logged es = (run-IsLogged new [] es new-IsLogged).failures
