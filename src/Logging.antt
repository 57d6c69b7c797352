-- ===== src/Logging.antt =====
-- src/core/logging: levels, outputs, the sink and the prefixed logger. The other components record a call of
-- `LogSink::log` as a `LogRecord`, and `log` says what plog's logger gets of it; what that does with it is
-- outside the model.
use rdp_ext.Common.{◌++◌, Bool, true, false}
use rdp_ext.Common.Text.{Text, text}
use rdp_ext.Common.Except.{Except, returned, thrown}

pub data LogLevel : Type 0 where
  debug info warning error : LogLevel

pub data LogOutput : Type 0 where
  console windows_debug : LogOutput

-- The appenders of plog that `makeAppender` constructs.
pub data Appender : Type 0 where
  color_console debug_output : Appender

-- The flag says whether `_WIN32` is defined.
unfoldable pub make_appender : Bool → LogOutput → Except Appender
make_appender windows console = returned color_console
make_appender true windows_debug = returned debug_output
make_appender false windows_debug = thrown (text "Windows debug logging is not available")

-- The arguments of one call of `LogSink::log`.
pub record LogRecord : Type 0 where
  pub level : LogLevel
  pub prefix : Text
  pub message : Text

-- The values of `plog::Severity` that are named.
pub data Severity : Type 0 where
  none error_severity warning_severity info_severity debug_severity : Severity

unfoldable pub from_log_level : LogLevel → Severity
from_log_level debug = debug_severity
from_log_level info = info_severity
from_log_level warning = warning_severity
from_log_level error = error_severity

-- The appender, and the greatest severity of the logger that it is added to.
pub record LogSink : Type 0 where
  pub appender : Appender
  pub max_severity : Severity

unfoldable pub make_log_sink : Bool → LogLevel → LogOutput → Except LogSink
unfolding make_appender from_log_level
make_log_sink windows max_level output = elim (make_appender windows output) [
  | returned appender ↦
      returned (record { appender = appender; max_severity = from_log_level max_level })
  | thrown what ↦ thrown what
]

-- What `*logger_ += …` is given: a severity and a text.
unfoldable pub log : LogRecord → Severity × Text
unfolding from_log_level
log r = (from_log_level r.level, r.prefix ++ r.message)

pub record Logger : Type 0 where
  pub prefix : Text

unfoldable pub make_logger : Text → Logger
make_logger prefix = record { prefix = text "[" ++ prefix ++ text "] " }

unfoldable pub log_debug : Logger → Text → LogRecord
log_debug logger message = record { level = debug; prefix = logger.prefix; message = message }

unfoldable pub log_info : Logger → Text → LogRecord
log_info logger message = record { level = info; prefix = logger.prefix; message = message }

unfoldable pub log_warning : Logger → Text → LogRecord
log_warning logger message = record { level = warning; prefix = logger.prefix; message = message }

unfoldable pub log_error : Logger → Text → LogRecord
log_error logger message = record { level = error; prefix = logger.prefix; message = message }
