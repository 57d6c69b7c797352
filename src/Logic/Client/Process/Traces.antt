-- ===== src/Logic/Client/Process/Traces.antt =====
-- The tasks of the client's process, as steps of its state machine (src/logic/client).
use rdp_ext.Common.{◌≡◌, sym, ap, ◌∙◌, inl, inr, List, [], ◌∷◌, ◌++◌, map, map-append_eq}
use mathlib.Core.List.{append-nil, append_assoc}
use rdp_ext.Common.Except.{returned, Except-cases}
use rdp_ext.Protocol.Serializer.{Archive, IsLawful, Buffer, deserialize}
use rdp_ext.Protocol.Readable.{kept, readable}
use rdp_ext.Logic.Base.{Ambient, PercentText}
use rdp_ext.Logic.Client.{
  ClientState, ClientEvent, message_received, transport_connected, transport_disconnected, do_step,
  initial,
}
use rdp_ext.Logic.Client.Invariant.{run_client, run_client-Inv}
use rdp_ext.Logic.Client.Controller.{
  Task, step_bytes, step_connected, step_disconnected, send_bytes, close, step, run_task,
}
use rdp_ext.Logic.Client.Controller.Strand.{
  inputs, outputs, step-Steps, inputs-append, outputs-append,
}
use rdp_ext.Logic.Client.History.{
  message_of, heard, heard-append, sent_along, run_client-append, sent_along-append,
}
use rdp_ext.Logic.Client.Process.{Process, after_task}

module _ (percent : PercentText) (archive : Archive) (lawful : IsLawful archive) where
  -- A process that received some buffers, as a run of the machine along the events of `history`.
  pub record Traced (now : ClientState) (strand : List Task) (delivered got : List Buffer)
      : Type 0 where
    pub history : List (Ambient × ClientEvent)
    pub machine : run_client percent initial history ≡ now
    pub reads : heard history ++ readable archive (inputs strand) ≡ readable archive got
    pub gives :
        map (deserialize archive) (delivered ++ outputs strand)
        ≡ map returned (sent_along percent initial history)

  abbrev pub IsTraced : Process → List Buffer → Type 0
  IsTraced p got = Traced p.machine p.strand p.delivered got

  event-Traced :
      (p : Process) (got : List Buffer) (e : ClientEvent) (a : Ambient) (rest : List Task)
      (history : List (Ambient × ClientEvent))
      → run_client percent initial history ≡ p.machine
      → heard history ++ (message_of e ++ readable archive (inputs rest)) ≡ readable archive got
      → map (deserialize archive) (p.delivered ++ outputs rest)
        ≡ map returned (sent_along percent initial history)
      → IsTraced (after_task p rest (step percent archive a p.machine e)) got
  unfolding after_task step
  event-Traced p got e a rest history same r g =
      let (moved, i, o, t, b) =
        step-Steps percent archive lawful a p.machine e
          (rw (sym same) (run_client-Inv percent history)) in
      record {
        history = history ++ (a, e) ∷ [];
        machine =
            run_client-append percent initial history a e
            ∙ ap (λ m. (do_step percent a m e).state) same;
        reads =
            rw (heard-append history a e, inputs-append rest _, i, append-nil (inputs rest))
              (simp append_assoc r);
        gives =
            rw
              (
                t,
                append-nil p.delivered,
                outputs-append rest _,
                sent_along-append percent initial history a e,
                same,
              )
              (ap (map (deserialize archive)) (sym (append_assoc p.delivered (outputs rest) _))
                ∙ map-append_eq (deserialize archive) returned (p.delivered ++ outputs rest) _ _ _ g
                    o);
      }

  pub task-Traced :
      (p : Process) (got : List Buffer) (task : Task) (a : Ambient) (rest : List Task)
      → Traced p.machine (task ∷ rest) p.delivered got
      → IsTraced (after_task p rest (run_task percent archive a p.machine task)) got
  unfolding after_task run_task
  task-Traced p got step_connected a rest t =
      event-Traced p got transport_connected a rest t.history t.machine t.reads t.gives
  task-Traced p got step_disconnected a rest t =
      event-Traced p got transport_disconnected a rest t.history t.machine t.reads t.gives
  task-Traced p got (step_bytes bytes) a rest t = elim (Except-cases (deserialize archive bytes)) [
    | inl (m, e) ↦
        let same_reads : heard t.history ++ (m ∷ readable archive (inputs rest))
            ≡ readable archive got =
          rw (ap (kept archive) e) at t.reads in
        rw (e, run_task)
          (event-Traced p got (message_received m) a rest t.history t.machine same_reads t.gives)
    | inr (what, e) ↦
        let same_reads : heard t.history ++ readable archive (inputs rest) ≡ readable archive got =
          rw (ap (kept archive) e) at t.reads in
        rw (e, run_task, append-nil rest, append-nil p.delivered)
          (record { history = t.history; machine = t.machine; reads = same_reads; gives = t.gives })
  ]
  task-Traced p got (send_bytes bytes) a rest t = rw (append-nil rest) (record {
    history = t.history;
    machine = t.machine;
    reads = t.reads;
    gives = rw (append_assoc p.delivered (bytes ∷ []) (outputs rest)) t.gives;
  })
  task-Traced p got close a rest t =
      rw (append-nil rest, append-nil p.delivered)
        (record { history = t.history; machine = t.machine; reads = t.reads; gives = t.gives })
