-- ===== src/Logic/Server/History.antt =====
-- A server's machine along a growing list of events (src/logic/server/state_machine.cpp).
use rdp_ext.Common.{ℕ, suc, ◌+◌, ◌≡◌, refl, ap, List, [], ◌∷◌, ◌++◌, arith}
use mathlib.Core.List.{append-nil, append_assoc}
use rdp_ext.Protocol.Message.{Message, hello, telemetry_start}
use rdp_ext.Telemetry.Sample.{CpuSample}
use rdp_ext.Logic.Base.{Ambient}
use rdp_ext.Logic.Server.{ServerState, ServerEvent, message_received, cpu_sample_ready, do_step}
use rdp_ext.Logic.Server.Invariant.{run_server}
use rdp_ext.Logic.Server.Wire.{sends}
use rdp_ext.Logic.Server.Samples.{sent_along, starts, hellos}

pub run_server-append :
    (s : ServerState) (es : List (Ambient × ServerEvent)) (a : Ambient) (e : ServerEvent)
    → run_server s (es ++ (a, e) ∷ []) ≡ (do_step a (run_server s es) e).state
unfolding run_server
run_server-append s [] a e = refl
run_server-append s ((b, f) ∷ es) a e = run_server-append (do_step b s f).state es a e

pub sent_along-append :
    (s : ServerState) (es : List (Ambient × ServerEvent)) (a : Ambient) (e : ServerEvent)
    → sent_along s (es ++ (a, e) ∷ [])
      ≡ sent_along s es ++ sends (do_step a (run_server s es) e).effects
unfolding sent_along run_server
sent_along-append s [] a e = append-nil (sends (do_step a s e).effects)
sent_along-append s ((b, f) ∷ es) a e = simp append_assoc (
    ap (λ ms. sends (do_step b s f).effects ++ ms) (sent_along-append (do_step b s f).state es a e))

-- The message that an event brings.
abbrev pub message_of : ServerEvent → List Message
message_of (message_received m) = m ∷ []
message_of _ = []

abbrev pub heard : List (Ambient × ServerEvent) → List Message
heard [] = []
heard ((a, e) ∷ es) = message_of e ++ heard es

pub heard-append :
    (es : List (Ambient × ServerEvent)) (a : Ambient) (e : ServerEvent)
    → heard (es ++ (a, e) ∷ []) ≡ heard es ++ message_of e
heard-append [] a e = append-nil (message_of e)
heard-append ((b, f) ∷ es) a e =
    simp append_assoc (ap (λ ms. message_of f ++ ms) (heard-append es a e))

-- The sample that an event brings.
abbrev pub sample_of : ServerEvent → List CpuSample
sample_of (cpu_sample_ready sample) = sample ∷ []
sample_of _ = []

abbrev pub sampled : List (Ambient × ServerEvent) → List CpuSample
sampled [] = []
sampled ((a, e) ∷ es) = sample_of e ++ sampled es

pub sampled-append :
    (es : List (Ambient × ServerEvent)) (a : Ambient) (e : ServerEvent)
    → sampled (es ++ (a, e) ∷ []) ≡ sampled es ++ sample_of e
sampled-append [] a e = append-nil (sample_of e)
sampled-append ((b, f) ∷ es) a e =
    simp append_assoc (ap (λ ss. sample_of f ++ ss) (sampled-append es a e))

abbrev pub start_requests : List Message → ℕ
start_requests [] = 0
start_requests (telemetry_start ∷ ms) = suc (start_requests ms)
start_requests (_ ∷ ms) = start_requests ms

abbrev pub greetings : List Message → ℕ
greetings [] = 0
greetings (hello m ∷ ms) = suc (greetings ms)
greetings (_ ∷ ms) = greetings ms

pub start_requests-append :
    (ms ns : List Message) → start_requests (ms ++ ns) ≡ start_requests ms + start_requests ns
start_requests-append [] ns = omega arith
start_requests-append (m ∷ ms) ns = ground (arith, start_requests-append ms ns)

pub greetings-append : (ms ns : List Message) → greetings (ms ++ ns) ≡ greetings ms + greetings ns
greetings-append [] ns = omega arith
greetings-append (m ∷ ms) ns = ground (arith, greetings-append ms ns)

pub start_requests-heard :
    (es : List (Ambient × ServerEvent)) → start_requests (heard es) ≡ starts es
start_requests-heard [] = refl
start_requests-heard ((a, e) ∷ es) = ground (arith, start_requests-heard es)

pub greetings-heard : (es : List (Ambient × ServerEvent)) → greetings (heard es) ≡ hellos es
greetings-heard [] = refl
greetings-heard ((a, e) ∷ es) = ground (arith, greetings-heard es)
