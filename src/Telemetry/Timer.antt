-- ===== src/Telemetry/Timer.antt =====
-- src/core/telemetry/timer_control.h, class TimerControl. A call of the executor or of the sample handler is
-- an entry of `calls`; the sampler's exceptions pass through.
pub mod Chains
use rdp_ext.Common.{ℕ, Bool, true, false, not, List, [], ◌∷◌, if◌then◌else◌}
use rdp_ext.Common.Except.{Except, returned, thrown}
use rdp_ext.Telemetry.Sample.{CpuSample}
use rdp_ext.Telemetry.Sampler.{Sampler}

abbrev pub default_sampling_interval_ms : ℕ
default_sampling_interval_ms = 1000

pub data Call : Type 0 where
  -- `executor_.schedule(delay, [this]() { postSample(); })`
  schedule_post_sample : ℕ → Call
  -- `sample_handler_(sample)`
  handle_sample : CpuSample → Call

module _ (sampler : Sampler) where
  pub record TimerControl : Type 0 where
    pub sampler_state : sampler.State
    pub running : Bool
    pub has_sample_handler : Bool

  pub record TimerOutcome : Type 0 where
    pub timer : TimerControl
    pub calls : List Call
    pub result : Except (Unit {0})

  abbrev pub initial : TimerControl
  initial = record { sampler_state = sampler.fresh; running = false; has_sample_handler = false }

  unfoldable pub set_sample_handler : TimerControl → TimerControl
  set_sample_handler t = record t { has_sample_handler = true }

  unfoldable pub stop : TimerControl → TimerControl
  stop t = record t { running = false }

  unfoldable pub schedule_sample : TimerControl → TimerOutcome
  schedule_sample t =
      if not t.running then record { timer = t; calls = []; result = returned tt } else record {
        timer = t;
        calls = schedule_post_sample default_sampling_interval_ms ∷ [];
        result = returned tt;
      }

  -- What `start` does once the sampler is reset: `exchange`, and the test of the old value.
  start_after : TimerControl → Except (Unit {0}) → TimerOutcome
  unfolding schedule_sample
  start_after t (thrown what) = record { timer = t; calls = []; result = thrown what }
  start_after t (returned _) =
      let was_running = t.running in
      let running_timer = record t { running = true } in
      if was_running
      then record { timer = running_timer; calls = []; result = returned tt }
      else schedule_sample running_timer

  unfoldable pub start : TimerControl → sampler.Input → TimerOutcome
  unfolding start_after
  start t input =
      let (state, result) = sampler.reset t.sampler_state input in
      start_after (record t { sampler_state = state }) result

  -- `scheduleSample()` behind a call of the handler.
  post_after : TimerControl → Except CpuSample → TimerOutcome
  unfolding schedule_sample
  post_after t (thrown what) = record { timer = t; calls = []; result = thrown what }
  post_after t (returned sample) =
      let scheduled = schedule_sample t in
      record scheduled { calls = handle_sample sample ∷ scheduled.calls }

  unfoldable pub post_sample : TimerControl → sampler.Input → TimerOutcome
  unfolding schedule_sample post_after
  post_sample t input =
      if not t.running
      then record { timer = t; calls = []; result = returned tt }
      else (if t.has_sample_handler
          then (let (state, result) = sampler.read_sample t.sampler_state input in
              post_after (record t { sampler_state = state }) result)
          else schedule_sample t)
