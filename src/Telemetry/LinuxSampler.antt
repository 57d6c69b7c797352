-- ===== src/Telemetry/LinuxSampler.antt =====
-- src/core/telemetry/cpu_sampler_linux.cpp: a stub that reports no load.
use rdp_ext.Common.Except.{Except, returned}
use rdp_ext.Telemetry.Sample.{CpuSample}
use rdp_ext.Telemetry.Sampler.{Sampler}

-- `CpuSample{}`; the bits of 0.0f are 0.
unfoldable pub read_sample : Unit {0} → Unit {0} → Unit {0} × Except CpuSample
read_sample s input = (s, returned (record { cpu_load = 0 }))

unfoldable pub reset : Unit {0} → Unit {0} → Unit {0} × Except (Unit {0})
unfolding read_sample
reset s input = let (s', sample) = read_sample s input in (s', returned tt)

abbrev pub linux_sampler : Sampler
linux_sampler = record {
  State = Unit {0};
  Input = Unit {0};
  fresh = tt;
  reset = reset;
  read_sample = read_sample;
}
