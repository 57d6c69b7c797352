-- ===== src/Logic/Client/Lines.antt =====
-- The lines that a client logs (src/logic/client/state_machine.cpp), told apart by how they begin.
use rdp_ext.Common.{
  ◌≡◌, refl, ◌==◌, Bool, true, false, ◌&&◌, List, [], ◌∷◌, ◌++◌, map, if◌then◌else◌, arith,
}
use rdp_ext.Common.Text.{Text, text, decimal}
use rdp_ext.Logging.{LogRecord, log_info, log_error}
use rdp_ext.Protocol.Message.{Float32, error, cpu_sample}
use rdp_ext.Runtime.Executor.{std_exception, execute_task}
use rdp_ext.Runtime.Executor
use rdp_ext.Logic.Base.{Ambient, PercentText}
use rdp_ext.Logic.Client.History.{message_of}
use rdp_ext.Logic.Client.{ClientState, ClientEvent, message_received, logger, do_step}
use rdp_ext.Protocol.Loads.{loads}

abbrev pub starts_with : Text → Text → Bool
starts_with [] t = true
starts_with (a ∷ s) [] = false
starts_with (a ∷ s) (b ∷ t) = let rest = starts_with s t in a == b && rest

-- The lines whose message begins with a text.
abbrev pub lines_with : Text → List LogRecord → List LogRecord
lines_with start [] = []
lines_with start (r ∷ rs) =
    let rest = lines_with start rs in if starts_with start r.message then r ∷ rest else rest

pub lines_with-append :
    (start : Text) (xs ys : List LogRecord)
    → lines_with start (xs ++ ys) ≡ lines_with start xs ++ lines_with start ys
lines_with-append start [] ys = refl
lines_with-append start (x ∷ xs) ys = ground (arith, lines_with-append start xs ys)

-- A report of a load, and the executor's report of an exception.
unfoldable pub load_start : Text
load_start = text "Server CPU load "

unfoldable pub failure_start : Text
failure_start = text "Execution failed with exception, message: "

abbrev pub load_line : PercentText → Float32 → LogRecord
load_line percent load = log_info logger (text "Server CPU load " ++ percent load ++ text "%")

-- A text that no line of the machine begins with, but that of a load.
record IsRare (start : Text) : Type 0 where
  error_line :
      (code message : Text)
      → starts_with start
          (text "error message received. Code: " ++ code ++ text ", message: " ++ message)
        ≡ false
  connected_line : starts_with start (text "Transport connected. Sending Hello message") ≡ false
  disconnected_line : starts_with start (text "Transport disconnected") ≡ false
  sending_line : starts_with start (text "Sending Hello message") ≡ false
  completed_line : starts_with start (text "Handshake completed") ≡ false
  requesting_line : starts_with start (text "Requesting CPU load messages") ≡ false
  failed_line :
      starts_with start (
        text
          "Handshake failed: unsupported protocol version. Client protocol version 0x{:04X}, required version 0x{:04X} ")
      ≡ false
  arrived_line : starts_with start (text "Hello message arrived") ≡ false

load_start-IsRare : IsRare load_start
unfolding load_start text
load_start-IsRare = record {
  error_line = λ code message. refl;
  connected_line = refl;
  disconnected_line = refl;
  sending_line = refl;
  completed_line = refl;
  requesting_line = refl;
  failed_line = refl;
  arrived_line = refl;
}

failure_start-IsRare : IsRare failure_start
unfolding failure_start text
failure_start-IsRare = record {
  error_line = λ code message. refl;
  connected_line = refl;
  disconnected_line = refl;
  sending_line = refl;
  completed_line = refl;
  requesting_line = refl;
  failed_line = refl;
  arrived_line = refl;
}

rare_lines :
    (start : Text) (percent : PercentText) (a : Ambient) (s : ClientState) (e : ClientEvent)
    → IsRare start
    → loads (message_of e) ≡ []
    → lines_with start (do_step percent a s e).logs ≡ []
unfolding do_step log_info log_error
rare_lines start percent a s (message_received (cpu_sample m)) r l = cc
rare_lines start percent a s (message_received (error m)) r l =
    rw (r.error_line (decimal m.code) m.message) refl
rare_lines start percent a s (message_received m) r l = ground (arith, r)
rare_lines start percent a s e r l = ground (arith, r)

-- A step logs a line for the load of a CPU sample, and no other line that begins so.
pub do_step-load_lines :
    (percent : PercentText) (a : Ambient) (s : ClientState) (e : ClientEvent)
    → lines_with load_start (do_step percent a s e).logs
      ≡ map (load_line percent) (loads (message_of e))
unfolding do_step log_info load_start text
do_step-load_lines percent a s (message_received (cpu_sample m)) = refl
do_step-load_lines percent a s (message_received m) =
    rare_lines load_start percent a s (message_received m) load_start-IsRare refl
do_step-load_lines percent a s e = rare_lines load_start percent a s e load_start-IsRare refl

-- No line of the machine looks like the executor's report of an exception.
pub do_step-failure_lines :
    (percent : PercentText) (a : Ambient) (s : ClientState) (e : ClientEvent)
    → lines_with failure_start (do_step percent a s e).logs ≡ []
unfolding do_step log_info failure_start text
do_step-failure_lines percent a s (message_received (cpu_sample m)) = refl
do_step-failure_lines percent a s (message_received m) =
    rare_lines failure_start percent a s (message_received m) failure_start-IsRare refl
do_step-failure_lines percent a s e =
    rare_lines failure_start percent a s e failure_start-IsRare refl

abbrev pub failure_line : Text → LogRecord
failure_line what =
    log_error Executor.logger (text "Execution failed with exception, message: " ++ what)

pub execute_task-lines :
    (what : Text)
    → (lines_with load_start (execute_task (std_exception what)).0 ≡ [])
      × (lines_with failure_start (execute_task (std_exception what)).0 ≡ failure_line what ∷ [])
unfolding execute_task load_start failure_start text log_error
execute_task-lines what = (refl, refl)
