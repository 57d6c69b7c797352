-- ===== src/Runtime.antt =====
-- runtime: the executor and the runtimes of the two ends.
pub mod Executor
pub mod WtsRuntime
pub mod MstscRuntime
pub mod Defaults
