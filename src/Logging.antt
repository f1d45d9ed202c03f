-- ===== src/Logging.antt =====
-- src/utils/logs_handler.cc: the sinks of the two loggers, and spdlog's registry of loggers, which is
-- a list of them.
pub mod Asked
use text.Mathlib.Text.{◌==◌}
use mdt_dialout_collector.Common.{
  ℕ, ◌*◌, String, Bool, true, false, not, Option, none, some, List, [], ◌∷◌, ◌++◌, if◌then◌else◌,
  Partial, done, thrown, logger_exists, exit_failure, bind,
}
use mdt_dialout_collector.Config.Params.{Params, value_at}

pub data Sink : Type 0 where
  syslog_sink : String → ℕ → Sink  -- the ident and the facility
  console_sink : Sink

pub record Logger : Type 0 where
  pub name : String
  pub sinks : List Sink
  pub level : String

-- Whether spdlog makes the two kinds of sinks, or throws.
pub record Making : Type 0 where
  pub syslog : Bool
  pub console : Bool

-- `spdlog::get`; none is the null pointer
unfoldable pub get_logger : String → List Logger → Option Logger
get_logger name [] = none
get_logger name (l ∷ loggers) = if l.name == name then some l else get_logger name loggers

-- `spdlog::register_logger`, which throws where the name is taken
unfoldable pub register_logger : Logger → List Logger → Partial (List Logger)
unfolding get_logger
register_logger l loggers = elim (get_logger l.name loggers) [
  | some _ ↦ thrown logger_exists
  | none ↦ done (l ∷ loggers)
]

abbrev pub boot_logger : Logger
boot_logger = record {
  name = "multi-logger-boot";
  sinks = syslog_sink "mdt-dialout-collector" 8 ∷ console_sink ∷ [];  -- LOG_USER
  level = "debug";
}

-- set_boot_spdlog_sinks
unfoldable pub set_boot_spdlog_sinks : Making → List Logger → Partial (Bool × List Logger)
unfolding register_logger
set_boot_spdlog_sinks making loggers =
    if not making.syslog
    then done (false, loggers)
    else if not making.console
    then done (false, loggers)
    else (bind (register_logger boot_logger loggers) λ loggers'. done (true, loggers'))

-- LogsHandler::LogsHandler
unfoldable pub logs_handler : Making → List Logger → Partial (List Logger)
unfolding set_boot_spdlog_sinks
logs_handler making loggers =
    bind (set_boot_spdlog_sinks making loggers)
      λ (ok, loggers'). if ok then done loggers' else thrown exit_failure

-- the table `syslog_facility`, with `operator[]`, which gives 0 for a name that is not in it
abbrev pub syslog_facility : String → ℕ
syslog_facility name =
    if name == "LOG_DAEMON"
    then 3
    else if name == "LOG_USER"
    then 8
    else if name == "LOG_LOCAL0"
    then 16
    else if name == "LOG_LOCAL1"
    then 17
    else if name == "LOG_LOCAL2"
    then 18
    else if name == "LOG_LOCAL3"
    then 19
    else if name == "LOG_LOCAL4"
    then 20
    else if name == "LOG_LOCAL5"
    then 21
    else if name == "LOG_LOCAL6"
    then 22
    else if name == "LOG_LOCAL7"
    then 23
    else 0

-- the sink of the system log, none where spdlog throws
unfoldable pub syslog_sinks : Params → Making → Partial (Option (List Sink))
syslog_sinks cfg making = bind (value_at cfg "syslog") λ syslog.
    if syslog == "true"
    then (bind (value_at cfg "syslog_ident") λ ident.
        bind (value_at cfg "syslog_facility") λ facility. done (
          if making.syslog
          then some (syslog_sink ident (syslog_facility facility * 8) ∷ [])
          else none))
    else done (some [])

-- the sink of the console
unfoldable pub console_sinks : Params → Making → Partial (Option (List Sink))
console_sinks cfg making = bind (value_at cfg "console_log") λ console_log. done (
    if console_log == "true"
    then (if making.console then some (console_sink ∷ []) else none)
    else some [])

-- set_spdlog_sinks
unfoldable pub set_spdlog_sinks : Params → Making → List Logger → Partial (Bool × List Logger)
unfolding register_logger syslog_sinks console_sinks
set_spdlog_sinks cfg making loggers = bind (value_at cfg "spdlog_level") λ level.
    bind (syslog_sinks cfg making) λ syslog. elim syslog [
      | none ↦ done (false, loggers)
      | some first ↦ bind (console_sinks cfg making) λ console. elim console [
        | none ↦ done (false, loggers)
        | some second ↦
            bind
              (register_logger
                (record { name = "multi-logger"; sinks = first ++ second; level = level }) loggers)
              λ loggers'. done (true, loggers')
      ]
    ]
