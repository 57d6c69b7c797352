-- ===== src/Telemetry/Sampler.antt =====
-- What timer_control.h uses of a CpuSampler: `reset` and `readSample`. The build takes the class of
-- cpu_sampler_linux.h or of cpu_sampler_win.h; a call may throw.
use rdp_ext.Common.Except.{Except}
use rdp_ext.Telemetry.Sample.{CpuSample}

-- `Input` is what the operating system answers to a call.
pub record Sampler : Type 1 where
  pub State : Type 0
  pub Input : Type 0
  pub fresh : State
  pub reset : State → Input → State × Except (Unit {0})
  pub read_sample : State → Input → State × Except CpuSample
