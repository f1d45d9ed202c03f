-- ===== src/Logging/Asked.antt =====
-- The loggers that the settings of a file ask for.
use text.Mathlib.Text.{◌==◌}
use mdt_dialout_collector.Common.{
  ◌*◌, Bool, true, none, some, List, [], ◌∷◌, ◌++◌, ◌≡◌, refl, if◌then◌else◌, done, thrown,
  logger_exists, Bool-cases, Option-cases, inl, inr,
}
use mdt_dialout_collector.Config.Params.{find, value_at}
use mdt_dialout_collector.Config.Load.{Config, effective}
use mdt_dialout_collector.Config.Logs.Accepts.{syslog_on, logs_params}
use mdt_dialout_collector.Logging.{
  Sink, syslog_sink, console_sink, Logger, Making, get_logger, register_logger, boot_logger,
  set_boot_spdlog_sinks, logs_handler, syslog_facility, syslog_sinks, console_sinks,
  set_spdlog_sinks,
}

abbrev pub console_on : Config → Bool
console_on cfg = effective cfg "console_log" "true" == "true"

-- The sinks that the settings of a file ask for.
abbrev first_sinks : Config → List Sink
first_sinks cfg =
    if syslog_on cfg
    then syslog_sink (effective cfg "syslog_ident" "mdt-dialout-collector")
        (syslog_facility (effective cfg "syslog_facility" "LOG_USER") * 8)
      ∷ []
    else []

abbrev second_sinks : Config → List Sink
second_sinks cfg = if console_on cfg then console_sink ∷ [] else []

abbrev pub logger_of : Config → Logger
logger_of cfg = record {
  name = "multi-logger";
  sinks = first_sinks cfg ++ second_sinks cfg;
  level = effective cfg "spdlog_level" "info";
}

syslog_sinks-first_sinks :
    (cfg : Config) (making : Making)
    → making.syslog ≡ true
    → syslog_sinks (logs_params cfg) making ≡ done (some (first_sinks cfg))
unfolding syslog_sinks value_at find
syslog_sinks-first_sinks cfg making ready = elim (Bool-cases (syslog_on cfg)) [
  | inl on ↦ rw (on, ready) refl
  | inr off ↦ rw off refl
]

console_sinks-second_sinks :
    (cfg : Config) (making : Making)
    → making.console ≡ true
    → console_sinks (logs_params cfg) making ≡ done (some (second_sinks cfg))
unfolding console_sinks value_at find
console_sinks-second_sinks cfg making ready = elim (Bool-cases (console_on cfg)) [
  | inl on ↦ rw (on, ready) refl
  | inr off ↦ rw off refl
]

register_logger_fresh :
    (l : Logger) (loggers : List Logger)
    → get_logger l.name loggers ≡ none
    → register_logger l loggers ≡ done (l ∷ loggers)
unfolding register_logger
register_logger_fresh l loggers fresh = rw (fresh, register_logger) refl

register_logger_taken :
    (l : Logger) (loggers : List Logger) {known : Logger}
    → get_logger l.name loggers ≡ some known
    → register_logger l loggers ≡ thrown logger_exists
unfolding register_logger
register_logger_taken l loggers h = rw (h, register_logger) refl

spdlog_level-logs_params :
    (cfg : Config)
    → value_at (logs_params cfg) "spdlog_level" ≡ done (effective cfg "spdlog_level" "info")
unfolding value_at find
spdlog_level-logs_params cfg = refl

-- With the logging settings of a file, and where spdlog makes the sinks and knows no multi-logger,
-- set_spdlog_sinks finds every setting and registers one logger: it writes to the system log, under
-- the ident and the facility of the file, where that is switched on, and to the console where that
-- is, and has the level of the file.
pub set_spdlog_sinks-logger_of :
    (cfg : Config) (making : Making) (loggers : List Logger)
    → making.syslog ≡ true
    → making.console ≡ true
    → get_logger "multi-logger" loggers ≡ none
    → set_spdlog_sinks (logs_params cfg) making loggers ≡ done (true, logger_of cfg ∷ loggers)
unfolding set_spdlog_sinks
set_spdlog_sinks-logger_of cfg making loggers syslog console fresh =
    rw
      (
        spdlog_level-logs_params cfg,
        syslog_sinks-first_sinks cfg making syslog,
        console_sinks-second_sinks cfg making console,
        register_logger_fresh (logger_of cfg) loggers fresh,
      )
      refl

-- Where spdlog makes the sinks, the constructor of LogsHandler registers the boot logger, unless
-- one of that name is registered: then it throws.
pub logs_handler-get_logger :
    (making : Making) (loggers : List Logger)
    → making.syslog ≡ true
    → making.console ≡ true
    → logs_handler making loggers ≡ elim (get_logger "multi-logger-boot" loggers) [
      | some _ ↦ thrown logger_exists
      | none ↦ done (boot_logger ∷ loggers)
    ]
unfolding logs_handler set_boot_spdlog_sinks
logs_handler-get_logger making loggers syslog console =
    elim (Option-cases (get_logger "multi-logger-boot" loggers)) [
      | inl fresh ↦ rw (syslog, console, register_logger_fresh boot_logger loggers fresh) refl
      | inr (l, known) ↦ rw (syslog, console, register_logger_taken boot_logger loggers known) refl
    ]
