-- ===== src/Telemetry/Timer/Chains.antt =====
-- The chains of scheduled callbacks that a timer keeps going: each callback schedules the next.
use rdp_ext.Common.{ℕ, suc, zero, ◌+◌, ◌≡◌, true, List, [], ◌∷◌, if◌then◌else◌, arith}
use rdp_ext.Common.Text.{Text}
use rdp_ext.Common.Except.{returned, thrown}
use rdp_ext.Telemetry.Sampler.{Sampler}
use rdp_ext.Telemetry.Timer.{
  Call, schedule_post_sample, handle_sample, TimerControl, TimerOutcome, initial, stop, start,
  post_sample,
}

abbrev pub scheduled : List Call → ℕ
scheduled [] = 0
scheduled (schedule_post_sample delay ∷ cs) = suc (scheduled cs)
scheduled (handle_sample sample ∷ cs) = scheduled cs

abbrev pub handled : List Call → ℕ
handled [] = 0
handled (schedule_post_sample delay ∷ cs) = handled cs
handled (handle_sample sample ∷ cs) = suc (handled cs)

module _ (sampler : Sampler) where
  -- A timer, the callbacks that its executor still holds, and the samples handled so far.
  pub record System : Type 0 where
    pub timer : TimerControl sampler
    pub pending : ℕ
    pub samples : ℕ

  pub data Event : Type 0 where
    started : sampler.Input → Event
    stopped : Event
    fired : sampler.Input → Event

  abbrev apply : System → ℕ → TimerOutcome sampler → System
  apply s pending outcome = record {
    timer = outcome.timer;
    pending = pending + scheduled outcome.calls;
    samples = s.samples + handled outcome.calls;
  }

  fire : System → ℕ → sampler.Input → System
  fire s zero input = s
  fire s (suc rest) input = apply s rest (post_sample sampler s.timer input)

  -- `fired` runs one of the callbacks, if there is one.
  unfoldable pub advance : System → Event → System
  unfolding fire
  advance s (started input) = apply s s.pending (start sampler s.timer input)
  advance s stopped = record s { timer = stop sampler s.timer }
  advance s (fired input) = fire s s.pending input

  unfoldable pub run : System → List Event → System
  run s [] = s
  run s (e ∷ es) = run (advance s e) es

  abbrev pub new : System
  new = record { timer = initial sampler; pending = 0; samples = 0 }

  abbrev pub stops : List Event → ℕ
  stops [] = 0
  stops (stopped ∷ es) = suc (stops es)
  stops (started input ∷ es) = stops es
  stops (fired input ∷ es) = stops es

  abbrev load : System → ℕ
  load s = if s.timer.running then s.pending else suc s.pending

  -- A reading that throws ends its chain, and the timer still counts as running.
  pub fired_throwing :
      (s : System) (input : sampler.Input) (what : Text) (rest : ℕ)
      → s.timer.running ≡ true
      → s.timer.has_sample_handler ≡ true
      → s.pending ≡ suc rest
      → (sampler.read_sample s.timer.sampler_state input).1 ≡ thrown what
      → ((advance s (fired input)).pending ≡ rest)
        × ((advance s (fired input)).samples ≡ s.samples)
        × ((advance s (fired input)).timer.running ≡ true)
  unfolding advance post_sample
  fired_throwing s input what rest r h p e = ground arith

  -- To stop a timer and start it again, with a reset that does not throw, adds a callback to those of
  -- before: none is cancelled, and the timer that they check is running.
  pub restart_adds_chain :
      (s : System) (input : sampler.Input)
      → (sampler.reset s.timer.sampler_state input).1 ≡ returned tt
      → ((advance (advance s stopped) (started input)).pending ≡ suc s.pending)
        × ((advance (advance s stopped) (started input)).timer.running ≡ true)
  unfolding advance start stop
  restart_adds_chain s input e = ground arith
