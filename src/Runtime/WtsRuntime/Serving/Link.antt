-- ===== src/Runtime/WtsRuntime/Serving/Link.antt =====
-- The tasks on the strand that come of the transport's handlers, and what they make of the machine.
use rdp_ext.Common.{◌≡◌, ◌⊎◌, inl, inr, refl, Bool, true, false, List, [], ◌∷◌, ◌++◌, some, arith}
use rdp_ext.Common.Except.{Except, Except-cases}
use rdp_ext.Protocol.Message.{Message}
use rdp_ext.Protocol.Serializer.{Archive, Buffer, deserialize}
use rdp_ext.Telemetry.Sample.{CpuSample}
use rdp_ext.Logic.Base.{Ambient, ConnectionState, disconnected, awaiting_handshake}
use rdp_ext.Logic.Server.{
  ServerState, ServerEffect, send_message, start_telemetry_timer, stop_telemetry_timer,
  close_transport, transport_connected, transport_disconnected, message_received, cpu_sample_ready,
  do_step,
}
use rdp_ext.Logic.Server.Controller.{
  Task, step_connected, step_disconnected, step_bytes, step_sample, send_bytes, close,
  handle_effects, step, run_task,
}
use rdp_ext.Logic.Server.Controller.Strand.{posts}
use rdp_ext.Transport.Wts.{call_connected, call_disconnected, call_bytes}
use rdp_ext.Transport.Wts
use rdp_ext.Transport.Wts.Reading.Alternation.{follows}

-- The handlers that the waiting tasks come of, in order.
abbrev pub arrivals : List Task → List Wts.Call
arrivals [] = []
arrivals (step_connected ∷ ts) = call_connected ∷ arrivals ts
arrivals (step_disconnected ∷ ts) = call_disconnected ∷ arrivals ts
arrivals (step_bytes bytes ∷ ts) = call_bytes bytes ∷ arrivals ts
arrivals (_ ∷ ts) = arrivals ts

pub arrivals-append : (xs ys : List Task) → arrivals (xs ++ ys) ≡ arrivals xs ++ arrivals ys
arrivals-append [] ys = refl
arrivals-append (x ∷ xs) ys = ground (arith, arrivals-append xs ys)

abbrev pub is_awaiting : ConnectionState → Bool
is_awaiting awaiting_handshake = true
is_awaiting _ = false

-- A machine is in one of two connection states, and without a connection it reports nothing.
pub record IsLinked (s : ServerState) : Type 0 where
  pub waiting : (s.connection_state ≡ disconnected) ⊎ (s.connection_state ≡ awaiting_handshake)
  pub quiet : (is_awaiting s.connection_state ≡ true) ⊎ (s.telemetry_enabled ≡ false)

connected_lem :
    (a : Ambient) (s : ServerState)
    → let u = (do_step a s transport_connected).state in
      IsLinked u × (is_awaiting u.connection_state ≡ true)
unfolding do_step
connected_lem a s = ground arith

disconnected_lem :
    (a : Ambient) (s : ServerState)
    → let u = (do_step a s transport_disconnected).state in
      IsLinked u × (is_awaiting u.connection_state ≡ false)
unfolding do_step
disconnected_lem a s = ground arith

message_lem :
    (a : Ambient) (s : ServerState) (m : Message)
    → IsLinked s
    → is_awaiting s.connection_state ≡ true
    → let u = (do_step a s (message_received m)).state in
      IsLinked u × (is_awaiting u.connection_state ≡ true)
unfolding do_step
message_lem a s m l c = ground (arith, l.waiting)

sample_lem :
    (a : Ambient) (s : ServerState) (sample : CpuSample)
    → IsLinked s
    → let u = (do_step a s (cpu_sample_ready sample)).state in
      IsLinked u × (is_awaiting u.connection_state ≡ is_awaiting s.connection_state)
unfolding do_step
sample_lem a s sample l = ground (arith, l.waiting, l.quiet)

-- The machine follows the waiting tasks, up to whether there is a connection behind the last one.
abbrev pub Heeds : Bool → ServerState → List Task → Type 0
Heeds on s ts = IsLinked s × (follows (is_awaiting s.connection_state) (arrivals ts) ≡ some on)

follows_same :
    {b c on : Bool} (cs : List Wts.Call) → b ≡ c → follows c cs ≡ some on → follows b cs ≡ some on
follows_same cs e f = rw e f

bytes_follow :
    (b : Bool) {on : Bool} (bytes : Buffer) (cs : List Wts.Call)
    → follows b (call_bytes bytes ∷ cs) ≡ some on
    → (b ≡ true) × (follows true cs ≡ some on)
bytes_follow true (x ∷ xs) cs f = (refl, f)
bytes_follow false (x ∷ xs) cs f = cc
bytes_follow true [] cs f = cc
bytes_follow false [] cs f = cc

module _ (archive : Archive) (started : Except (Unit {0})) where
  effects-arrivals :
      (effects : List ServerEffect)
      → arrivals (posts (handle_effects archive started effects).0) ≡ []
  unfolding handle_effects
  effects-arrivals [] = refl
  effects-arrivals (send_message m ∷ es) = ground (arith, effects-arrivals es)
  effects-arrivals (start_telemetry_timer ∷ es) = ground (arith, effects-arrivals es)
  effects-arrivals (stop_telemetry_timer ∷ es) = ground (arith, effects-arrivals es)
  effects-arrivals (close_transport ∷ es) = ground (arith, effects-arrivals es)

  -- A buffer is stepped with, or it changes nothing.
  bytes_cases :
      (a : Ambient) (s : ServerState) (bytes : Buffer)
      → let r = run_task archive started a s (step_bytes bytes) in
        ((m : Message) × (r ≡ step archive started a s (message_received m)))
        ⊎ ((r.state ≡ s) × (r.calls ≡ []))
  unfolding run_task
  bytes_cases a s bytes = elim (Except-cases (deserialize archive bytes)) [
    | inl (m, e) ↦ inl (m, rw (e, run_task) refl)
    | inr (what, e) ↦ inr (rw (e, run_task) refl, rw (e, run_task) refl)
  ]

  pub task-arrivals :
      (a : Ambient) (s : ServerState) (task : Task)
      → arrivals (posts (run_task archive started a s task).calls) ≡ []
  unfolding run_task step
  task-arrivals a s step_connected = effects-arrivals (do_step a s transport_connected).effects
  task-arrivals a s step_disconnected =
      effects-arrivals (do_step a s transport_disconnected).effects
  task-arrivals a s (step_bytes bytes) = elim (bytes_cases a s bytes) [
    | inl (m, e) ↦ rw e (effects-arrivals (do_step a s (message_received m)).effects)
    | inr (same, e) ↦ rw e refl
  ]
  task-arrivals a s (step_sample sample) =
      effects-arrivals (do_step a s (cpu_sample_ready sample)).effects
  task-arrivals a s (send_bytes bytes) = refl
  task-arrivals a s close = refl

  pub task-Heeds :
      (a : Ambient) (s : ServerState) (task : Task) (rest : List Task) (on : Bool)
      → Heeds on s (task ∷ rest)
      → Heeds on (run_task archive started a s task).state rest
  unfolding run_task step
  task-Heeds a s step_connected rest on (l, f) =
      let (l', e) = connected_lem a s in (l', ground (arith, e, f))
  task-Heeds a s step_disconnected rest on (l, f) =
      let (l', e) = disconnected_lem a s in (l', ground (arith, e, f))
  task-Heeds a s (step_bytes bytes) rest on (l, f) =
      let (c, g) = bytes_follow (is_awaiting s.connection_state) bytes (arrivals rest) f in
      elim (bytes_cases a s bytes) [
        | inl (m, e) ↦
            let (l', c') = message_lem a s m l c in rw e (l', follows_same (arrivals rest) c' g)
        | inr (same, e) ↦ rw same (l, follows_same (arrivals rest) c g)
      ]
  task-Heeds a s (step_sample sample) rest on (l, f) =
      let (l', e) = sample_lem a s sample l in (l', follows_same (arrivals rest) e f)
  task-Heeds a s (send_bytes bytes) rest on (l, f) = (l, f)
  task-Heeds a s close rest on (l, f) = (l, f)
