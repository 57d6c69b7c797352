-- ===== src/Runtime/MstscRuntime/Working.antt =====
-- The client's process on its executor, as src/runtime/mstsc_runtime.h puts them together: the controller's posts go
-- through `Executor::post`, and the worker runs the handlers that asio's strand holds (src/runtime/executor.cpp). A
-- post is one step, with its test of `stopping_`.
pub mod Equivalence
use rdp_ext.Common.{Bool, List, [], ◌∷◌, ◌++◌, Option, none, some}
use rdp_ext.Logging.{LogRecord}
use rdp_ext.Protocol.Serializer.{Archive, Buffer}
use rdp_ext.Runtime.Executor.{Executor, Call, post_to_strand, post, stop, execute_task}
use rdp_ext.Runtime.Executor
use rdp_ext.Runtime.Executor.Queue.{Handler, posted, handle}
use rdp_ext.Logic.Base.{Ambient, PercentText}
use rdp_ext.Logic.Client.{ClientState, initial}
use rdp_ext.Logic.Client.Controller.{
  Task, TaskOutcome, on_connected, on_disconnected, on_bytes, run_task,
}
use rdp_ext.Logic.Client.Controller.Strand.{posts, sent}
use rdp_ext.Logic.Client.Process.{task_end}

pub record Worker : Type 0 where
  pub executor : Executor
  pub machine : ClientState
  -- what asio's strand holds
  pub queue : List (Handler Task)
  pub delivered : List Buffer
  pub logs : List LogRecord

pub data Event : Type 0 where
  -- the worker runs the first handler
  works : Ambient → Event
  -- the transport calls a handler
  connects disconnects : Event
  receives : Buffer → Event
  -- `MstscRuntime::stop`, on the worker or on another thread
  stops : Bool → Event

abbrev pub pushed : List (Call Task) → List (Handler Task)
pushed [] = []
pushed (post_to_strand task ∷ cs) = posted task ∷ pushed cs
pushed (_ ∷ cs) = pushed cs

-- What the strand gets where these tasks are posted, one after the other.
unfoldable pub post_all : Executor → List Task → List (Handler Task)
post_all e [] = []
post_all e (task ∷ tasks) = pushed (post e task) ++ post_all e tasks

-- Behind a task, which `rest` stood behind.
unfoldable pub after_execution : Worker → Executor → List (Handler Task) → TaskOutcome → Worker
unfolding post_all
after_execution u e rest r = record {
  executor = e;
  machine = r.state;
  queue = rest ++ post_all e (posts r.calls);
  delivered = u.delivered ++ sent r.calls;
  logs = u.logs ++ r.logs ++ (execute_task (task_end r.result)).0;
}

module _ (percent : PercentText) (archive : Archive) where
  -- Behind the test of a handler.
  unfoldable pub execute : Worker → Executor → List (Handler Task) → Option Task → Ambient → Worker
  unfolding after_execution
  execute u e rest none a = record u { executor = e; queue = rest }
  execute u e rest (some task) a =
      after_execution u e rest (run_task percent archive a u.machine task)

  unfoldable pub work : Worker → List (Handler Task) → Ambient → Worker
  unfolding execute
  work u [] a = u
  work u (handler ∷ rest) a = let (e, task) = handle u.executor handler in execute u e rest task a

  unfoldable pub serve : Worker → Event → Worker
  unfolding work post_all
  serve u (works a) = work u u.queue a
  serve u connects = record u { queue = u.queue ++ post_all u.executor (posts on_connected) }
  serve u disconnects = record u { queue = u.queue ++ post_all u.executor (posts on_disconnected) }
  serve u (receives bytes) = record u {
    queue = u.queue ++ post_all u.executor (posts (on_bytes bytes));
  }
  serve u (stops on_worker) = record u { executor = (stop {Task = Task} on_worker u.executor).0 }

  unfoldable pub serve_all : Worker → List Event → Worker
  serve_all u [] = u
  serve_all u (e ∷ es) = serve_all (serve u e) es

-- Behind `MstscRuntime::start`.
unfoldable pub started : Worker
unfolding Executor.start
started = record {
  executor = (Executor.start {Task = Task} Executor.initial).0;
  machine = initial;
  queue = [];
  delivered = [];
  logs = [];
}
