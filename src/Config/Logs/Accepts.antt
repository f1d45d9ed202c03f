-- ===== src/Config/Logs/Accepts.antt =====
-- Which files the logging handler accepts, and the map that it fills.
use text.Mathlib.Text.{◌==◌}
use mdt_dialout_collector.Common.{
  String, Bool, true, ◌&&◌, none, some, [], ◌∷◌, ◌≡◌, arith, if◌then◌else◌, Option-cases,
  Bool-cases, inl, inr,
}
use mdt_dialout_collector.Config.Params.{Params, emplace, at, rejected, accept_if}
use mdt_dialout_collector.Config.Load.{
  Config, Machine, is_allowed, effective, admits, nonempty, load_optional_lem,
  load_optional_enum_lem,
}
use mdt_dialout_collector.Config.Logs.{facilities, levels, lookup_logs_parameters}

-- Whether the file switches the system log on.
abbrev pub syslog_on : Config → Bool
syslog_on cfg = effective cfg "syslog" "false" == "true"

abbrev pub logs_valid : Config → Bool
logs_valid cfg =
    admits nonempty cfg "syslog"
    && (if syslog_on cfg
        then admits (λ v. is_allowed v facilities) cfg "syslog_facility"
          && admits nonempty cfg "syslog_ident"
        else true)
    && admits nonempty cfg "console_log"
    && admits (λ v. is_allowed v levels) cfg "spdlog_level"

abbrev pub logs_params : Config → Params
logs_params cfg =
    ("spdlog_level", effective cfg "spdlog_level" "info")
    ∷ ("console_log", effective cfg "console_log" "true")
    ∷ (
      "syslog_ident",
      if syslog_on cfg then effective cfg "syslog_ident" "mdt-dialout-collector" else "NONE",
    )
    ∷ (
      "syslog_facility",
      if syslog_on cfg then effective cfg "syslog_facility" "LOG_USER" else "NONE",
    )
    ∷ ("syslog", effective cfg "syslog" "false")
    ∷ []

-- The handler rejects an unreadable file. It accepts a file exactly where each setting that it
-- reads is absent or has an admissible text, and then the map holds the five logging keys, each
-- with its text or its default; without syslog, facility and ident are NONE. It throws nothing.
pub lookup_logs_parameters-accept_if :
    (machine : Machine) (cfg_path : String)
    → lookup_logs_parameters machine cfg_path ≡ elim (machine.read_file cfg_path) [
      | none ↦ rejected
      | some cfg ↦ accept_if (logs_valid cfg) (logs_params cfg)
    ]
unfolding lookup_logs_parameters emplace at
lookup_logs_parameters-accept_if machine cfg_path =
    elim (Option-cases (machine.read_file cfg_path)) [
      | inl missing ↦ ground arith
      | inr (cfg, found) ↦ elim (Bool-cases (syslog_on cfg)) [
        | inl on ↦ simp (load_optional_lem, load_optional_enum_lem) (ground arith)
        | inr off ↦ simp (load_optional_lem, load_optional_enum_lem) (ground arith)
      ]
    ]
