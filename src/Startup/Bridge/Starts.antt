-- ===== src/Startup/Bridge/Starts.antt =====
-- What a start of the bridge does, for every file, with the loggers that are registered.
use mdt_dialout_collector.Common.{
  Bool, ap, subst, sym, ◌∙◌, done-injective, bind-eq-done, ◌≤◌, String, true, none, some, Option,
  if◌then◌else◌, List, ◌∷◌, ◌++◌, ◌≡◌, refl, length, Option-cases, Bool-cases, inl, inr, Partial,
  done, thrown, logger_exists, null_pointer,
}
use mdt_dialout_collector.Config.Load.{Config, Machine}
use mdt_dialout_collector.Config.Logs.Accepts.{logs_valid, lookup_logs_parameters-accept_if}
use mdt_dialout_collector.Logging.{Logger, Making, get_logger, boot_logger}
use mdt_dialout_collector.Logging.Asked.{
  logger_of, logs_handler-get_logger, set_spdlog_sinks-logger_of,
}
use mdt_dialout_collector.Server.Registry.{initiate_shutdown}
use mdt_dialout_collector.Startup.Options.{options_valid, load_settings-accept_if}
use mdt_dialout_collector.Startup.Bridge.{
  Bridge, Created, start_loggers, start_grpc_dialout_collector, stop_grpc_dialout_collector,
}
use mdt_dialout_collector.Startup.Bridge.Total.{start_with-accept_if}

-- The settings of a file whose logging settings are valid.
abbrev pub logging_file : Machine → String → Option Config
logging_file machine cfg_path = elim (machine.read_file cfg_path) [
  | none ↦ none
  | some cfg ↦ if logs_valid cfg then some cfg else none
]

logging_file_missing :
    (machine : Machine) (cfg_path : String)
    → machine.read_file cfg_path ≡ none
    → logging_file machine cfg_path ≡ none
logging_file_missing machine cfg_path missing = rw (missing, logging_file) refl

logging_file_found :
    (machine : Machine) (cfg_path : String) {cfg : Config}
    → machine.read_file cfg_path ≡ some cfg
    → logging_file machine cfg_path ≡ (if logs_valid cfg then some cfg else none)
logging_file_found machine cfg_path found = rw (found, logging_file) refl

-- The loggers that a start adds.
abbrev pub both_loggers : Config → List Logger → List Logger
both_loggers cfg loggers = logger_of cfg ∷ boot_logger ∷ loggers

-- What the first start gives: the multi-logger that is not there is called, or the threads start.
abbrev pub FirstStart : Bridge → Option Config → Partial Bridge → Type 0
FirstStart b none result = result ≡ thrown null_pointer
FirstStart b (some cfg) result =
    (workers : List String) × (result
      ≡ done (record b {
        loggers = both_loggers cfg b.loggers;
        active_workers = b.active_workers ++ workers;
      }))
    × (length workers ≤ 20)

pub start_loggers-boot_logger :
    (machine : Machine) (cfg_path : String) (making : Making) (loggers : List Logger)
    → making.syslog ≡ true
    → making.console ≡ true
    → get_logger "multi-logger-boot" loggers ≡ none
    → get_logger "multi-logger" loggers ≡ none
    → start_loggers machine cfg_path making loggers ≡ elim (logging_file machine cfg_path) [
      | none ↦ done (boot_logger ∷ loggers)
      | some cfg ↦ done (both_loggers cfg loggers)
    ]
unfolding start_loggers get_logger
start_loggers-boot_logger machine cfg_path making loggers syslog console no_boot no_multi =
    rw
      (
        logs_handler-get_logger making loggers syslog console,
        no_boot,
        lookup_logs_parameters-accept_if machine cfg_path,
      )
      (elim (Option-cases (machine.read_file cfg_path)) [
        | inl missing ↦ rw missing refl
        | inr (cfg, found) ↦ elim (Bool-cases (logs_valid cfg)) [
          | inl valid ↦
              rw
                (
                  found,
                  valid,
                  set_spdlog_sinks-logger_of cfg making (boot_logger ∷ loggers) syslog console
                      no_multi,
                )
                refl
          | inr invalid ↦ rw (found, invalid) refl
        ]
      ])

pub start_grpc_dialout_collector-FirstStart :
    (machine : Machine) (cfg_path zmq_uri : String) (making : Making) (c : Created) (b : Bridge)
    → making.syslog ≡ true
    → making.console ≡ true
    → get_logger "multi-logger-boot" b.loggers ≡ none
    → get_logger "multi-logger" b.loggers ≡ none
    → FirstStart b
        (logging_file machine cfg_path)
        (start_grpc_dialout_collector machine cfg_path zmq_uri making c b)
unfolding start_grpc_dialout_collector get_logger
start_grpc_dialout_collector-FirstStart machine cfg_path zmq_uri making c b syslog console no_boot
      no_multi =
    rw (start_loggers-boot_logger machine cfg_path making b.loggers syslog console no_boot no_multi)
      (elim (Option-cases (machine.read_file cfg_path)) [
        | inl missing ↦ rw (logging_file_missing machine cfg_path missing, no_multi) refl
        | inr (cfg, found) ↦
            rw (logging_file_found machine cfg_path found) (elim (Bool-cases (logs_valid cfg)) [
              | inl valid ↦
                  rw (valid, load_settings-accept_if machine cfg_path zmq_uri, found)
                    (start_with-accept_if (options_valid machine cfg) zmq_uri cfg c
                      (record b { loggers = both_loggers cfg b.loggers }))
              | inr invalid ↦ rw (invalid, no_multi) refl
            ])
      ])

known_boot :
    (machine : Machine) (cfg_path zmq_uri : String) (making : Making) (c : Created) (b : Bridge)
    {boot : Logger}
    → making.syslog ≡ true
    → making.console ≡ true
    → get_logger "multi-logger-boot" b.loggers ≡ some boot
    → start_grpc_dialout_collector machine cfg_path zmq_uri making c b ≡ thrown logger_exists
unfolding start_grpc_dialout_collector start_loggers
known_boot machine cfg_path zmq_uri making c b syslog console known =
    rw (logs_handler-get_logger making b.loggers syslog console, known) refl

-- A first start that completes has registered the loggers.
FirstStart-both_loggers :
    (b b1 : Bridge) (file : Option Config)
    → FirstStart b file (done b1)
    → (cfg : Config) × (b1.loggers ≡ both_loggers cfg b.loggers)
FirstStart-both_loggers b b1 none h = absurd (cc)
FirstStart-both_loggers b b1 (some cfg) (workers, same, few) =
    (cfg, ap (λ (b : Bridge). b.loggers) (done-injective same))

boot_of_both :
    (cfg : Config) (loggers : List Logger)
    → get_logger "multi-logger-boot" (both_loggers cfg loggers) ≡ some boot_logger
unfolding get_logger
boot_of_both cfg loggers = refl

stop-loggers :
    (ends : List Bool) (b b1 : Bridge) (returns : Bool)
    → stop_grpc_dialout_collector ends b ≡ done (returns, b1)
    → b1.loggers ≡ b.loggers
unfolding stop_grpc_dialout_collector
stop-loggers ends b b1 returns h =
    let (s, down, same) = bind-eq-done (initiate_shutdown b.servers) _ h in
    sym (ap (λ (r : Bool × Bridge). r.1.loggers) (done-injective same))

-- The collector cannot be started again: after a first start that completes, in a process where
-- neither logger was registered, and a stop that completes, whichever threads it has joined, a second
-- start, of any file, throws spdlog's exception from the constructor of LogsHandler, because the first
-- has registered the boot logger and the stop has kept it.
pub start_grpc_dialout_collector-logger_exists :
    (machine : Machine) (cfg_path zmq_uri : String) (making : Making) (c : Created)
    (b b1 b2 : Bridge) (ends : List Bool) (returns : Bool) (machine' : Machine)
    (cfg_path' zmq_uri' : String) (making' : Making) (c' : Created)
    → making.syslog ≡ true
    → making.console ≡ true
    → get_logger "multi-logger-boot" b.loggers ≡ none
    → get_logger "multi-logger" b.loggers ≡ none
    → start_grpc_dialout_collector machine cfg_path zmq_uri making c b ≡ done b1
    → stop_grpc_dialout_collector ends b1 ≡ done (returns, b2)
    → making'.syslog ≡ true
    → making'.console ≡ true
    → start_grpc_dialout_collector machine' cfg_path' zmq_uri' making' c' b2 ≡ thrown logger_exists
start_grpc_dialout_collector-logger_exists machine cfg_path zmq_uri making c b b1 b2 ends returns
      machine' cfg_path' zmq_uri' making' c' syslog console no_boot no_multi starts stops syslog'
      console' =
    let first =
      start_grpc_dialout_collector-FirstStart machine cfg_path zmq_uri making c b syslog console
        no_boot no_multi in
    let (cfg, both) =
      FirstStart-both_loggers b b1 (logging_file machine cfg_path)
        (subst (FirstStart b (logging_file machine cfg_path)) starts first) in
    known_boot machine' cfg_path' zmq_uri' making' c' b2 syslog' console' (
      ap (get_logger "multi-logger-boot") (stop-loggers ends b1 b2 returns stops ∙ both)
      ∙ boot_of_both cfg b.loggers)
