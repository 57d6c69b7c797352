-- ===== src/Tests/Telemetry.antt =====
-- src/core/telemetry at concrete inputs.
use rdp_ext.Common.{
  ℕ, ◌+◌, ◌-◌, ◌*◌, ◌/◌, ◌==◌, ◌≡◌, ◌⊎◌, refl, true, List, [], ◌∷◌, none, some, if◌then◌else◌,
  arith,
}
use rdp_ext.Common.Text.{text}
use rdp_ext.Common.Except.{returned, thrown}
use rdp_ext.Telemetry.LinuxSampler.{linux_sampler}
use rdp_ext.Telemetry.LinuxSampler
use rdp_ext.Telemetry.WinSampler.{
  FloatOps, SystemTimes, RawTimes, CpuSampler, fresh, file_time_to_uint64, read_raw_times,
  read_sample, reset, win_sampler,
}
use rdp_ext.Telemetry.WinSampler.Usage.{later, read_sample_later, read_sample_first}
use rdp_ext.Telemetry.Timer.{start, stop, post_sample}
use rdp_ext.Telemetry.Timer.Chains.{
  System, Event, started, stopped, fired, advance, run, new, fired_throwing, restart_adds_chain,
}

-- Floats as whole percents: enough for a test.
abbrev ops : FloatOps
ops = record { of_uint64 = λ n. n; div = λ a b. a * 100 / b }

abbrev times : ℕ → ℕ → ℕ → SystemTimes
times idle kernel user = record {
  idle = record { low = idle; high = 0 };
  kernel = record { low = kernel; high = 0 };
  user = record { low = user; high = 0 };
}

abbrev known : RawTimes
known = record { idle = 100; kernel = 200; user = 300 }

abbrev sampled : CpuSampler
sampled = record { previous = some known }

read_sample_later_example : read_sample ops sampled (some (times 125 250 350)) ≡ (
  record { previous = some (later known 25 50 50) },
  returned (record {
    cpu_load =
        if 50 + 50 == 0
        then 0
        else ops.div (ops.of_uint64 (50 + 50 - 25)) (ops.of_uint64 (50 + 50));
  }),
)
unfolding read_raw_times file_time_to_uint64
read_sample_later_example =
    read_sample_later ops sampled known (some (times 125 250 350)) 25 50 50 refl (omega arith)
      (omega arith) (omega arith) refl

read_sample_first_example :
    ((some (times 1 2 3) ≡ none)
      × (read_sample ops sampled (some (times 1 2 3))
          ≡ (sampled, thrown (text "GetSystemTimes failed")))
      × (reset ops sampled (some (times 1 2 3)) ≡ (sampled, thrown (text "GetSystemTimes failed"))))
    ⊎ ((current : RawTimes) × (read_raw_times (some (times 1 2 3)) ≡ returned current)
        × ((read_sample ops fresh (some (times 1 2 3))).1 ≡ returned (record { cpu_load = 0 }))
        × (reset ops sampled (some (times 1 2 3))
            ≡ (record { previous = some current }, returned tt)))
read_sample_first_example = read_sample_first ops sampled (some (times 1 2 3))

abbrev restarted : List (Event linux_sampler)
restarted = started tt ∷ fired tt ∷ stopped ∷ started tt ∷ []

restarted_has_two : (run linux_sampler (new linux_sampler) restarted).pending ≡ 2
unfolding run advance start stop post_sample LinuxSampler.reset LinuxSampler.read_sample
restarted_has_two = refl

abbrev busy : System linux_sampler
busy = record {
  timer = record { sampler_state = tt; running = true; has_sample_handler = true };
  pending = 1;
  samples = 3;
}

restart_adds_chain_example :
    (advance linux_sampler (advance linux_sampler busy stopped) (started tt)).pending ≡ 2
unfolding LinuxSampler.reset LinuxSampler.read_sample
restart_adds_chain_example = (restart_adds_chain linux_sampler busy tt refl).0

abbrev measuring : System (win_sampler ops)
measuring = record {
  timer = record { sampler_state = sampled; running = true; has_sample_handler = true };
  pending = 1;
  samples = 0;
}

fired_throwing_example : (advance (win_sampler ops) measuring (fired none)).pending ≡ 0
unfolding read_sample read_raw_times
fired_throwing_example =
    (fired_throwing (win_sampler ops) measuring none (text "GetSystemTimes failed") 0 refl refl refl
      refl).0
