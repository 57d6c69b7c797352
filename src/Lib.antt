-- ===== src/Lib.antt =====
-- rdp_ext is an extension of RDP with a virtual channel of its own: a server (an application inside the
-- remote session) and a client (a plugin of mstsc or FreeRDP) exchange messages over the channel. After a
-- handshake the client asks for telemetry, and the server reports its CPU load.
--
-- The parts and how they interact. A transport (src/transport) reports a connection, a disconnection and
-- received bytes by handlers. A controller (src/logic/client/controller.h, src/logic/server/controller.h)
-- posts these to the executor (src/runtime/executor.cpp), deserializes (src/core/protocol), steps its
-- state machine (src/logic/client/state_machine.cpp, src/logic/server/state_machine.cpp) and carries out
-- the effects: it posts the sending of serialized messages, and starts and stops the telemetry timer
-- (src/core/telemetry/timer_control.h), which reads a sampler at an interval. The runtimes
-- (src/runtime/wts_runtime.cpp, src/runtime/mstsc_runtime.cpp) own these parts.
--
-- Which file models what. State is a record, and an operation is a function from the state to the new
-- state, its calls of other parts in order, and its result; an exception is a value of Common/Except.
--   Common: shared names, tests, lists, texts as bytes (Common/Text), exceptions (Common/Except).
--   Protocol: src/core/protocol. Message and ErrorCode (message.h) with Equality (operator== of XMessage
--     is x_eq), Factory (message_factory.cpp; makeX is make_x), Serializer (serializer.cpp; the overload
--     into a buffer is serialize_into); Bounds, RoundTrip, Readable (the messages that buffers read as, and
--     the buffers that are none) and Loads.
--   Logging: src/core/logging/logger.cpp. A call of LogSink::log is a LogRecord, and log is what plog gets.
--   Telemetry: src/core/telemetry. LinuxSampler, WinSampler (with WinSampler/Usage) and Timer
--     (timer_control.h), over the interface Sampler; Timer/Chains is the timer with the executor's
--     callbacks.
--   Logic/Base, Logic/Handshake: src/logic/common; Handshake/Completion is any sequence of its calls.
--   Logic/Client, Logic/Server: the state machines. do_step is doStep, on_x are the overloads of
--     handleEvent, handle_x those of handleMessage; children Invariant, Wire, History, Requests
--     and Lines (client: what it logs), Samples and Sampled (server: the loads that it
--     reports).
--   Logic/Client/Controller, Logic/Server/Controller: the controllers. A closure that is posted is a Task,
--     and run_task is its body; Sending and Strand are what is posted and in which order.
--   Logic/Server/Reporting: the server's machine, timer and executor as src/runtime/wts_runtime.h puts them
--     together (Process), with every order of tasks, callbacks and calls of the transport; Switching (when
--     the timer runs), Delivery (one sample), Crossing (answers and a new connection), Refinement with
--     Readable and Traces, and Requests.
--   Logic/Client/Process: the client's machine, its strand and the log, as src/runtime/mstsc_runtime.h puts
--     them together, with Refinement and Traces, Logs (what the log says of the buffers that arrived) and
--     Runs; Logic/Reports joins it with the server's process, with
--     Reports/Sampling from a sample to the client's log.
--   Logic/Session: a client and a server machine over two reliable channels, with Phases, Convergence, and
--     Restart (a server connects anew, the client does not notice).
--   Logic/Network: both controllers, each with the strand of its executor, over a channel of bytes; Lane and
--     Carries relate the buffers on their way to messages, Refinement relates it to Logic/Session, and Rest
--     is where it comes to rest, used by Completion and Restart.
--   Transport/ChannelHandle, Transport/Wts: src/transport/wrappers/wts_channel_handle.cpp and
--     src/transport/wts_transport.cpp. Each section under the mutex is a function (open_begin,
--     open_finish, close_section); Wts/Ownership interleaves them; Wts/Reading is readOnce and run, and
--     Reading/Ending is when run returns.
--   Transport/Mstsc: src/transport/mstsc_transport.cpp. Registry holds the global maps, Name the channel
--     definition, Freerdp the handlers for the extended API (suffix _ex), Chunks the received data;
--     Dispatch is the thunks of the extended API, over several transports in one process.
--   Runtime: src/runtime. Executor with Stopping (calls one after the other), Sweep (the atomic
--     steps of stop and schedule, where a join waits for the worker) and Restart (those of start), Queue (the
--     tasks, from their posts to their execution, a handler's test and its task apart), Worker (the loop over its calls of
--     run); WtsRuntime (with Stopping, Serving, the server as a whole, and Working, its process on its
--     executor) and MstscRuntime (with Serving, the client as a whole behind the transport's handlers for
--     FreeRDP, and Working, the client's process on its executor), whose constructors are make and whose
--     destructors are destroy; Defaults.
--   Apps: src/apps. Server is wts_server/main.cpp and xrdp_server/main.cpp, Plugin is mstsc_plugin/main.cpp and
--     freerdp_plugin/main.cpp.
--   Tests: the theorems at concrete inputs.
--
-- Bounds and fuel. Numbers are natural numbers; fields of messages have the ranges of IsWire, and the
-- 64-bit arithmetic of the Windows sampler wraps as written (sub64, add64). Only Common/Text.decimal takes
-- fuel, one more than the number that it prints. The loop of WtsTransport::run is a recursion on its turns,
-- and that of Executor::workerLoop one on the ends of its calls of run, so that the statements about them
-- hold for every number of turns. A network and a process take any number of steps; the
-- search in Logic/Network/Rest for the end of a handshake has as fuel the bound on its steps: three for
-- each of seven messages (Completion), or of six (Restart).
--
-- What is a parameter. zpp_bits is Archive with the law IsLawful; the WTS library, the channel APIs of
-- mstsc and FreeRDP, GetSystemTimes, the clock and the random generator give their answers as arguments;
-- arithmetic on floats is FloatOps, their comparison float_eq, and a float is otherwise its bits; the
-- format of one log line is PercentText. Calls of boost::asio are recorded, and the handlers given to it
-- are functions; where tasks are run (Logic/Network, Logic/Client/Process, Logic/Server/Reporting,
-- Runtime/Executor/Queue, Runtime/MstscRuntime/Serving), the strand runs them one at a time in the order of the posts. The channel of
-- Logic/Network hands over each buffer whole and in order.
--
-- What is not modelled. plog behind LogSink::log, the timing of asio, memory orders of atomics. In
-- Transport/Wts/Reading and Runtime/WtsRuntime a turn of the loop of WtsTransport::run is whole:
-- another thread's stop or close falls between two turns, not inside of tryOpenChannel or readOnce;
-- only Transport/Wts/Ownership takes tryOpenChannel apart, and Runtime/WtsRuntime/Serving/Overtaking
-- readOnce. In Runtime/WtsRuntime/Working and Runtime/MstscRuntime/Working a handler of the executor
-- tests stopping_ and executes its task in one step. Logic/Network begins where both controllers, or
-- the server's alone, have handled a connection, has no samples and no disconnection, and lets the
-- telemetry start without an exception.
pub mod Common
pub mod Protocol
pub mod Logging
pub mod Telemetry
pub mod Logic
pub mod Transport
pub mod Runtime
pub mod Apps
mod Tests
