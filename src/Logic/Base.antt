-- ===== src/Logic/Base.antt =====
-- What src/logic/client and src/logic/server share: the connection states of src/logic/common/states.h, the
-- random numbers of helpers.h, and what a handler of a state machine leaves.
use rdp_ext.Common.{ℕ, ◌%◌, ◌^◌, List, ◌<◌, arith}
use rdp_ext.Common.Text.{Text}
use rdp_ext.Logging.{LogRecord}
use rdp_ext.Protocol.Message.{Float32}

pub data ConnectionState : Type 0 where
  disconnected awaiting_handshake active closed : ConnectionState

-- What a step takes from outside: the count of the system clock and a draw of the generator that
-- std::random_device seeds.
pub record Ambient : Type 0 where
  pub now : ℕ
  pub draw : ℕ

unfoldable pub generate_random_value : Ambient → ℕ
generate_random_value ambient = ambient.draw % 2 ^ 32

pub generate_random_value-lt : (a : Ambient) → generate_random_value a < 2 ^ 32
unfolding generate_random_value
generate_random_value-lt a = omega arith

-- `std::format("{:.1f}", load * 100)`: arithmetic on floats, which the model does not enter.
abbrev pub PercentText : Type 0
PercentText = Float32 → Text

-- The state after a handler, the effects that it returns and its calls of the log, in order.
pub record Outcome (S E : Type 0) : Type 0 where
  pub state : S
  pub effects : List E
  pub logs : List LogRecord
