-- ===== src/Config/Logs.antt =====
-- LogsCfgHandler::lookup_logs_parameters, and CfgHandler::set_parameters before it.
pub mod Accepts
use text.Mathlib.Text.{◌==◌}
use mdt_dialout_collector.Common.{String, none, some, List, [], ◌∷◌, if◌then◌else◌}
use mdt_dialout_collector.Config.Params.{Params, emplace, at, Load, accepted, rejected, ◌>>=◌}
use mdt_dialout_collector.Config.Load.{Config, Machine, load_optional, load_optional_enum}

-- CfgHandler::set_parameters: no file on an I/O or a parse error
unfoldable pub set_parameters : Machine → String → Load Config
set_parameters machine cfg_path = elim (machine.read_file cfg_path) [
  | none ↦ rejected
  | some cfg ↦ accepted cfg
]

abbrev pub facilities : List String
facilities =
    "LOG_DAEMON" ∷ "LOG_USER" ∷ "LOG_LOCAL0" ∷ "LOG_LOCAL1" ∷ "LOG_LOCAL2" ∷ "LOG_LOCAL3"
    ∷ "LOG_LOCAL4" ∷ "LOG_LOCAL5" ∷ "LOG_LOCAL6" ∷ "LOG_LOCAL7" ∷ []

abbrev pub levels : List String
levels = "debug" ∷ "info" ∷ "warn" ∷ "error" ∷ "off" ∷ []

-- the branch on `syslog`
unfoldable pub load_syslog : Config → Params → Load Params
load_syslog cfg params = do
  syslog ← at params "syslog"
  if syslog == "true"
      then (do
        params ← load_optional_enum cfg params "syslog_facility" "LOG_USER" facilities
        load_optional cfg params "syslog_ident" "mdt-dialout-collector")
      else accepted (emplace "syslog_ident" "NONE" (emplace "syslog_facility" "NONE" params))

unfoldable pub lookup_logs_parameters : Machine → String → Load Params
unfolding set_parameters load_syslog
lookup_logs_parameters machine cfg_path = do
  cfg ← set_parameters machine cfg_path
  params ← load_optional cfg [] "syslog" "false"
  params ← load_syslog cfg params
  params ← load_optional cfg params "console_log" "true"
  load_optional_enum cfg params "spdlog_level" "info" levels
