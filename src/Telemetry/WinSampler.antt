-- ===== src/Telemetry/WinSampler.antt =====
-- src/core/telemetry/cpu_sampler_win.cpp. `GetSystemTimes` is a parameter: its answer is the input of a
-- call, `none` where it fails. Arithmetic on floats is the parameter `FloatOps`.
pub mod Usage
use rdp_ext.Common.{ℕ, ◌+◌, ◌-◌, ◌*◌, ◌%◌, ◌^◌, ◌==◌, Option, none, some, if◌then◌else◌}
use rdp_ext.Common.Text.{text}
use rdp_ext.Common.Except.{Except, returned, thrown}
use rdp_ext.Telemetry.Sample.{CpuSample}
use rdp_ext.Telemetry.Sampler.{Sampler}

-- `static_cast<float>` of a uint64_t, and `/`, on bit patterns.
pub record FloatOps : Type 0 where
  pub of_uint64 : ℕ → ℕ
  pub div : ℕ → ℕ → ℕ

-- FILETIME.
pub record FileTime : Type 0 where
  pub low : ℕ
  pub high : ℕ

pub record SystemTimes : Type 0 where
  pub idle : FileTime
  pub kernel : FileTime
  pub user : FileTime

pub record RawTimes : Type 0 where
  pub idle : ℕ
  pub kernel : ℕ
  pub user : ℕ

pub record CpuSampler : Type 0 where
  pub previous : Option RawTimes

abbrev pub fresh : CpuSampler
fresh = record { previous = none }

-- ULARGE_INTEGER.
unfoldable pub file_time_to_uint64 : FileTime → ℕ
file_time_to_uint64 ft = ft.low + 2 ^ 32 * ft.high

unfoldable pub read_raw_times : Option SystemTimes → Except RawTimes
read_raw_times none = thrown (text "GetSystemTimes failed")
read_raw_times (some times) = returned (record {
  idle = file_time_to_uint64 times.idle;
  kernel = file_time_to_uint64 times.kernel;
  user = file_time_to_uint64 times.user;
})

-- `a - b` on uint64_t.
unfoldable pub sub64 : ℕ → ℕ → ℕ
sub64 a b = (a + 2 ^ 64 - b) % 2 ^ 64

-- `a + b` on uint64_t.
unfoldable pub add64 : ℕ → ℕ → ℕ
add64 a b = (a + b) % 2 ^ 64

-- `deltaBusy` and `deltaTotal` between two readings.
unfoldable pub delta_total : RawTimes → RawTimes → ℕ
unfolding sub64 add64
delta_total current previous =
    let delta_kernel = sub64 current.kernel previous.kernel in
    let delta_user = sub64 current.user previous.user in add64 delta_kernel delta_user

unfoldable pub delta_busy : RawTimes → RawTimes → ℕ
unfolding sub64 delta_total
delta_busy current previous =
    let delta_idle = sub64 current.idle previous.idle in
    sub64 (delta_total current previous) delta_idle

abbrev or_current : Option RawTimes → RawTimes → RawTimes
or_current none current = current
or_current (some previous) current = previous

module _ (ops : FloatOps) where
  -- The sample of two readings.
  unfoldable pub sample_between : RawTimes → RawTimes → CpuSample
  sample_between current previous =
      if delta_total current previous == 0 then record { cpu_load = 0 } else record {
        cpu_load =
            ops.div (ops.of_uint64 (delta_busy current previous))
              (ops.of_uint64 (delta_total current previous));
      }

  read_with : CpuSampler → Except RawTimes → CpuSampler × Except CpuSample
  read_with sampler (thrown what) = (sampler, thrown what)
  read_with sampler (returned current) =
      let previous = or_current sampler.previous current in
      (record { previous = some current }, returned (sample_between current previous))

  unfoldable pub read_sample : CpuSampler → Option SystemTimes → CpuSampler × Except CpuSample
  unfolding read_with
  read_sample sampler input = read_with sampler (read_raw_times input)

  discard : CpuSampler × Except CpuSample → CpuSampler × Except (Unit {0})
  discard (sampler, returned sample) = (sampler, returned tt)
  discard (sampler, thrown what) = (sampler, thrown what)

  unfoldable pub reset : CpuSampler → Option SystemTimes → CpuSampler × Except (Unit {0})
  unfolding read_sample discard
  reset sampler input = discard (read_sample sampler input)

  abbrev pub win_sampler : Sampler
  win_sampler = record {
    State = CpuSampler;
    Input = Option SystemTimes;
    fresh = fresh;
    reset = reset;
    read_sample = read_sample;
  }
