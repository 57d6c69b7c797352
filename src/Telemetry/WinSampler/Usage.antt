-- ===== src/Telemetry/WinSampler/Usage.antt =====
-- What a reading reports of the time between it and the reading before.
use rdp_ext.Common.{
  ℕ, ◌+◌, ◌-◌, ◌%◌, ◌^◌, ◌≤◌, ◌<◌, ◌==◌, ◌≡◌, refl, ◌⊎◌, inl, inr, Option, none, some,
  if◌then◌else◌, arith,
}
use rdp_ext.Common.Text.{text}
use rdp_ext.Common.Except.{returned, thrown}
use rdp_ext.Telemetry.WinSampler.{
  FloatOps, RawTimes, SystemTimes, CpuSampler, sub64, delta_busy, delta_total, sample_between,
  fresh, read_raw_times, read_sample, reset,
}

-- The counters after some more idle, kernel and user time, with the wrap of uint64_t.
abbrev pub later : RawTimes → ℕ → ℕ → ℕ → RawTimes
later t idle kernel user = record {
  idle = (t.idle + idle) % 2 ^ 64;
  kernel = (t.kernel + kernel) % 2 ^ 64;
  user = (t.user + user) % 2 ^ 64;
}

abbrev pub IsUint64 : RawTimes → Type 0
IsUint64 t = (t.idle < 2 ^ 64) × (t.kernel < 2 ^ 64) × (t.user < 2 ^ 64)

sub64-later : (t d : ℕ) → t < 2 ^ 64 → d < 2 ^ 64 → sub64 ((t + d) % 2 ^ 64) t ≡ d
unfolding sub64
sub64-later t d h k = omega arith

sub64_exact : (a b : ℕ) → a < 2 ^ 64 → b ≤ a → sub64 a b ≡ a - b
unfolding sub64
sub64_exact a b h k = omega arith

-- Kernel time includes idle time. The deltas are the true ones, also where a counter wrapped, and the
-- busy time is the total less the idle time, so that it is never above the total.
pub deltas_exact :
    (t : RawTimes) (idle kernel user : ℕ)
    → IsUint64 t
    → idle ≤ kernel
    → kernel + user < 2 ^ 64
    → (delta_total (later t idle kernel user) t ≡ kernel + user)
      × (delta_busy (later t idle kernel user) t ≡ kernel + user - idle)
unfolding delta_total delta_busy
deltas_exact t idle kernel user w h k = omega arith

delta_total_self : (t : RawTimes) → delta_total t t ≡ 0
unfolding delta_total
delta_total_self t = omega arith

-- A reading that follows one at `t` reports 0 where no time passed, and else the quotient of the busy and
-- the total time, and keeps the new counters for the next.
pub read_sample_later :
    (ops : FloatOps) (sampler : CpuSampler) (t : RawTimes) (input : Option SystemTimes)
    (idle kernel user : ℕ)
    → sampler.previous ≡ some t
    → IsUint64 t
    → idle ≤ kernel
    → kernel + user < 2 ^ 64
    → read_raw_times input ≡ returned (later t idle kernel user)
    → read_sample ops sampler input ≡ (
      record { previous = some (later t idle kernel user) },
      returned (record {
        cpu_load =
            if kernel + user == 0
            then 0
            else ops.div (ops.of_uint64 (kernel + user - idle)) (ops.of_uint64 (kernel + user));
      }),
    )
unfolding read_sample sample_between
read_sample_later ops sampler t input idle kernel user known w h k e =
    let (total, busy) = deltas_exact t idle kernel user w h k in ground arith

-- A reading that fails throws, as does a reset, and leaves the sampler as it was; the first reading
-- reports 0.
pub read_sample_first :
    (ops : FloatOps) (sampler : CpuSampler) (input : Option SystemTimes)
    → ((input ≡ none)
        × (read_sample ops sampler input ≡ (sampler, thrown (text "GetSystemTimes failed")))
        × (reset ops sampler input ≡ (sampler, thrown (text "GetSystemTimes failed"))))
      ⊎ ((current : RawTimes) × (read_raw_times input ≡ returned current)
          × ((read_sample ops fresh input).1 ≡ returned (record { cpu_load = 0 }))
          × (reset ops sampler input ≡ (record { previous = some current }, returned tt)))
unfolding read_sample sample_between reset read_raw_times
read_sample_first ops sampler none = inl (refl, refl, refl)
read_sample_first ops sampler (some times) =
    inr (_, refl, rw (sample_between, delta_total_self), refl)
