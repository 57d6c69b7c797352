-- ===== src/Logic/Client/Process.antt =====
-- The client's end as src/runtime/mstsc_runtime.h puts it together: the controller, its state machine, the tasks
-- that the executor holds, and the log that all of them write.
pub mod Traces
pub mod Logs
pub mod Refinement
pub mod Runs
use rdp_ext.Common.{List, [], ◌∷◌, ◌++◌}
use rdp_ext.Common.Except.{Except, returned, thrown}
use rdp_ext.Logging.{LogRecord}
use rdp_ext.Protocol.Serializer.{Archive, Buffer}
use rdp_ext.Runtime.Executor.{TaskEnd, finished, std_exception, execute_task}
use rdp_ext.Logic.Base.{Ambient, PercentText}
use rdp_ext.Logic.Client.{ClientState, initial}
use rdp_ext.Logic.Client.Controller.{
  Task, TaskOutcome, on_connected, on_disconnected, on_bytes, run_task,
}
use rdp_ext.Logic.Client.Controller.Strand.{posts, sent}

pub record Process : Type 0 where
  pub machine : ClientState
  pub strand : List Task
  -- what the transport was given
  pub delivered : List Buffer
  pub logs : List LogRecord

pub data Event : Type 0 where
  -- the strand runs its first task
  runs : Ambient → Event
  -- the transport calls a handler
  connects disconnects : Event
  receives : Buffer → Event

-- How a task ends, for the executor: the serializer's exception is a std::runtime_error.
abbrev pub task_end : Except (Unit {0}) → TaskEnd
task_end (returned _) = finished
task_end (thrown what) = std_exception what

-- A process behind a task: `rest` stood behind it.
unfoldable pub after_task : Process → List Task → TaskOutcome → Process
after_task p rest r = record {
  machine = r.state;
  strand = rest ++ posts r.calls;
  delivered = p.delivered ++ sent r.calls;
  logs = p.logs ++ r.logs ++ (execute_task (task_end r.result)).0;
}

abbrev pub new : Process
new = record { machine = initial; strand = []; delivered = []; logs = [] }

module _ (percent : PercentText) (archive : Archive) where
  unfoldable pub run_first : Process → List Task → Ambient → Process
  unfolding after_task
  run_first p [] a = p
  run_first p (task ∷ rest) a = after_task p rest (run_task percent archive a p.machine task)

  unfoldable pub advance : Process → Event → Process
  unfolding run_first
  advance p (runs a) = run_first p p.strand a
  advance p connects = record p { strand = p.strand ++ posts on_connected }
  advance p disconnects = record p { strand = p.strand ++ posts on_disconnected }
  advance p (receives bytes) = record p { strand = p.strand ++ posts (on_bytes bytes) }

  unfoldable pub run : Process → List Event → Process
  run p [] = p
  run p (e ∷ es) = run (advance p e) es
