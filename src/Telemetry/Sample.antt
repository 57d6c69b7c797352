-- ===== src/Telemetry/Sample.antt =====
-- src/core/telemetry/cpu_sample.h.
use rdp_ext.Protocol.Message.{Float32}

pub record CpuSample : Type 0 where
  pub cpu_load : Float32
