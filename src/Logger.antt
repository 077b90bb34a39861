-- ===== src/Logger.antt =====
-- src/logger: BaseLogger.ts and ConsoleLogger.ts. The console is a parameter: a call is what it is
-- given.
use Prim.Native.String.{◌++◌ as append}
use aries_framework_javascri.Prelude.{
  ℕ, ◌≡◌, refl, String, Bool, Option, none, some, leb, map_option, if◌then◌else◌,
}

-- `LogLevel`, with the numbers of its members.
pub data LogLevel : Type 0 where
  test_level trace_level debug_level info_level warn_level error_level fatal_level off_level :
      LogLevel

unfoldable pub number_of : LogLevel → ℕ
number_of test_level = 0
number_of trace_level = 1
number_of debug_level = 2
number_of info_level = 3
number_of warn_level = 4
number_of error_level = 5
number_of fatal_level = 6
number_of off_level = 7

-- `isEnabled`, of a logger with the level `log_level`.
unfoldable pub is_enabled : LogLevel → LogLevel → Bool
is_enabled log_level level = leb (number_of log_level) (number_of level)

pub data ConsoleMethod : Type 0 where
  console_log console_debug console_info console_warn console_error : ConsoleMethod

-- `consoleLogMap`; there is no method for `off`.
unfoldable pub console_method : LogLevel → Option ConsoleMethod
console_method test_level = some console_log
console_method trace_level = some console_log
console_method debug_level = some console_debug
console_method info_level = some console_info
console_method warn_level = some console_warn
console_method error_level = some console_error
console_method fatal_level = some console_error
console_method off_level = none

-- `LogLevel[level].toUpperCase()`
unfoldable pub prefix_of : LogLevel → String
prefix_of test_level = "TEST"
prefix_of trace_level = "TRACE"
prefix_of debug_level = "DEBUG"
prefix_of info_level = "INFO"
prefix_of warn_level = "WARN"
prefix_of error_level = "ERROR"
prefix_of fatal_level = "FATAL"
prefix_of off_level = "OFF"

pub record ConsoleCall : Type 0 where
  pub method : ConsoleMethod
  pub text : String
  pub json : Option String

-- `log`, whose level is not `off`: what the console is called with, if it is called. `to_json` is
-- JSON.stringify.
unfoldable pub log :
    {D : Type 0} → (D → String) → LogLevel → LogLevel → String → Option D → Option ConsoleCall
log to_json log_level level message details =
    if is_enabled log_level level
    then map_option
        (λ m. record {
          method = m;
          text = append (append (prefix_of level) ": ") message;
          json = map_option to_json details;
        })
        (console_method level)
    else none

-- A logger that is off calls the console at no level.
log_off :
    {D : Type 0} (to_json : D → String) (level : LogLevel) (message : String) (details : Option D)
    → log to_json off_level level message details ≡ none
unfolding log is_enabled number_of console_method
log_off to_json test_level message details = refl
log_off to_json trace_level message details = refl
log_off to_json debug_level message details = refl
log_off to_json info_level message details = refl
log_off to_json warn_level message details = refl
log_off to_json error_level message details = refl
log_off to_json fatal_level message details = refl
log_off to_json off_level message details = refl
