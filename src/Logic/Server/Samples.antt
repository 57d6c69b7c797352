-- ===== src/Logic/Server/Samples.antt =====
-- When a server sends a CPU sample.
use rdp_ext.Common.{
  ℕ, suc, ◌+◌, ◌≤◌, ◌<◌, ◌≡◌, ap, ◌⊎◌, inl, inr, Bool, true, false, List, [], ◌∷◌, ◌++◌, Option,
  none, some, length, if◌then◌else◌, arith,
}
use rdp_ext.Protocol.Message.{InstanceId, Message, hello, telemetry_start}
use rdp_ext.Protocol.Factory.{
  make_hello, make_cpu_sample, make_pong, make_wrong_protocol_version_error,
  make_unsupported_message_type_error,
}
pub use rdp_ext.Protocol.Loads.{loads, length-loads-append}
use rdp_ext.Telemetry.Sample.{CpuSample}
use rdp_ext.Logic.Base.{Ambient}
use rdp_ext.Logic.Handshake.{HandshakeState}
use rdp_ext.Logic.Server.{
  ServerState, ServerEvent, message_received, cpu_sample_ready, initial, do_step,
}
use rdp_ext.Logic.Server.Wire.{sends}

-- A step reports no load, or it handles a sample while telemetry is enabled and the handshake completed,
-- and reports that sample's load once.
pub do_step-loads :
    (a : Ambient) (s : ServerState) (e : ServerEvent)
    → (loads (sends (do_step a s e).effects) ≡ [])
      ⊎ ((sample : CpuSample) × (e ≡ cpu_sample_ready sample)
          × (s.telemetry_enabled ≡ true)
          × (s.handshake_state.handshake_completed ≡ true)
          × (loads (sends (do_step a s e).effects) ≡ sample.cpu_load ∷ []))
unfolding do_step make_hello make_cpu_sample make_pong make_wrong_protocol_version_error
    make_unsupported_message_type_error
do_step-loads a s (cpu_sample_ready sample) = ground arith
do_step-loads a s (message_received m) = inl (ground arith)
do_step-loads a s _ = inl (ground arith)

-- The messages that a server sends along some events.
unfoldable pub sent_along : ServerState → List (Ambient × ServerEvent) → List Message
sent_along s [] = []
sent_along s ((a, e) ∷ es) =
    let outcome = do_step a s e in sends outcome.effects ++ sent_along outcome.state es

abbrev is_start : ServerEvent → Bool
is_start (message_received telemetry_start) = true
is_start _ = false

abbrev is_hello : ServerEvent → Bool
is_hello (message_received (hello m)) = true
is_hello _ = false

abbrev pub count {ℓ} : {A : Type ℓ} → (A → Bool) → List (Ambient × A) → ℕ
count p [] = 0
count p ((a, e) ∷ es) = if p e then suc (count p es) else count p es

abbrev pub starts : List (Ambient × ServerEvent) → ℕ
starts = count is_start

abbrev pub hellos : List (Ambient × ServerEvent) → ℕ
hellos = count is_hello

-- What a state owes to the events before it.
abbrev start_credit : ServerState → ℕ
start_credit s = if s.telemetry_enabled then 1 else 0

abbrev known_credit : Option InstanceId → ℕ
known_credit none = 0
known_credit (some id) = 1

abbrev hello_credit : HandshakeState → ℕ
hello_credit h = if h.handshake_completed then 2 else known_credit h.remote_instance_id

start_credit-do_step :
    (a : Ambient) (s : ServerState) (e : ServerEvent)
    → start_credit (do_step a s e).state ≤ start_credit s + (if is_start e then 1 else 0)
unfolding do_step
start_credit-do_step a s e = ground arith

hello_credit-do_step :
    (a : Ambient) (s : ServerState) (e : ServerEvent)
    → hello_credit (do_step a s e).state.handshake_state
      ≤ hello_credit s.handshake_state + (if is_hello e then 1 else 0)
unfolding do_step
hello_credit-do_step a s e = ground arith

samples_paid :
    (s : ServerState) (es : List (Ambient × ServerEvent))
    → 0 < length (loads (sent_along s es))
    → (1 ≤ start_credit s + starts es) × (2 ≤ hello_credit s.handshake_state + hellos es)
unfolding sent_along
samples_paid s [] h = absurd (omega arith)
samples_paid s ((a, e) ∷ es) h =
    let outcome = do_step a s e in
    let both = length-loads-append (sends outcome.effects) (sent_along outcome.state es) in
    elim (do_step-loads a s e) [
      | inl quiet ↦
          let later = samples_paid outcome.state es (omega (arith, both, ap length quiet)) in
          ground (arith, later, start_credit-do_step a s e, hello_credit-do_step a s e)
      | inr (sample, _, enabled, completed, _) ↦ ground arith
    ]

-- Whatever arrives at a new server, it reports a load only after it received a TelemetryStart and two
-- hellos.
pub samples_need_request :
    (es : List (Ambient × ServerEvent))
    → 0 < length (loads (sent_along initial es))
    → (1 ≤ starts es) × (2 ≤ hellos es)
samples_need_request es h = let (p, q) = samples_paid initial es h in (omega arith, omega arith)
