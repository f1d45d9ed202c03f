-- ===== src/Startup/Daemon/Starts.antt =====
-- What the daemon starts with, for every configuration file.
use mdt_dialout_collector.Common.{
  String, List, not, terminate, ◌++◌, Bool, true, false, ◌&&◌, none, some, Option, [], ◌∷◌, ◌≡◌,
  refl, ◌∙◌, if◌then◌else◌, Option-cases, Bool-cases, inl, inr, Partial, done, thrown, exit_failure,
  bind,
}
use mdt_dialout_collector.Common.Text.{codes, is_empty}
use mdt_dialout_collector.Config.Params.{accept_if, value_at}
use mdt_dialout_collector.Config.Load.{Config, Machine, effective}
use mdt_dialout_collector.Config.Main.{cisco_keys, juniper_keys, nokia_keys, huawei_keys}
use mdt_dialout_collector.Config.Main.Workers.{socket_value}
use mdt_dialout_collector.Config.Main.Accepts.{main_valid, main_params}
use mdt_dialout_collector.Config.Logs.Accepts.{logs_valid, lookup_logs_parameters-accept_if}
use mdt_dialout_collector.Config.Main.Reads.{main_params-MainReads}
use mdt_dialout_collector.Config.DataManipulation.Accepts.{
  manipulation_valid, manipulation_params, csv_on, ptm_on, default_csv, default_ptm,
}
use mdt_dialout_collector.Logging.{Making, get_logger, boot_logger}
use mdt_dialout_collector.Logging.Asked.{
  logger_of, logs_handler-get_logger, set_spdlog_sinks-logger_of,
}
use mdt_dialout_collector.Labels.{LabelMap}
use mdt_dialout_collector.Labels.Csv.{load_label_map}
use mdt_dialout_collector.Labels.Ptm.{load_label_map_pre_tag_style}
use mdt_dialout_collector.Labels.Reload.{Csv, reload_label_maps, reload_label_maps_accepted}
use mdt_dialout_collector.Config.Params.{Params}
use mdt_dialout_collector.Startup.Threads.{load_threads}
use mdt_dialout_collector.Startup.{or_exit, configure}
use mdt_dialout_collector.Startup.Options.{
  options_valid, options_of, load_settings-accept_if, configure-load_settings,
}
use mdt_dialout_collector.Server.Plumbing.Total.{first_of, last_of}
use mdt_dialout_collector.Startup.Daemon.{
  Daemon, Opens, with_poller, no_sockets, load_all_threads, load_label_maps, start_logged,
  daemon_loggers, start_daemon,
}

-- The label map that the settings of a file ask for.
abbrev pub label_map_of : Csv → Config → Partial LabelMap
label_map_of files cfg =
    if csv_on cfg
    then load_label_map (files.read_csv (effective cfg "label_map_csv_path" default_csv))
    else if ptm_on cfg
    then load_label_map_pre_tag_style
        (files.read_ptm (effective cfg "label_map_ptm_path" default_ptm))
    else done []

abbrev pub has_no_socket : Config → Bool
has_no_socket cfg =
    is_empty (codes (socket_value cfg cisco_keys))
    && (is_empty (codes (socket_value cfg juniper_keys))
        && (is_empty (codes (socket_value cfg nokia_keys))
            && is_empty (codes (socket_value cfg huawei_keys))))

-- The workers of the four vendors, one after the other.
abbrev pub all_workers : Params → Partial (List String)
all_workers main = bind (load_threads main "socket_cisco" "replies_cisco" "cisco_workers") λ cisco.
    bind (load_threads main "socket_juniper" "replies_juniper" "juniper_workers") λ juniper.
      bind (load_threads main "socket_nokia" "replies_nokia" "nokia_workers") λ nokia.
        bind (load_threads main "socket_huawei" "replies_huawei" "huawei_workers")
          λ huawei. done (cisco ++ (juniper ++ (nokia ++ huawei)))

-- The daemon that a file asks for.
abbrev pub daemon_of : Csv → Opens → Config → Partial (Option Daemon)
daemon_of files opens cfg = bind (label_map_of files cfg) λ m.
    if has_no_socket cfg
    then done none
    else if not opens.sock_pull
    then thrown terminate
    else if not opens.shutdown_pipe
    then thrown terminate
    else (bind (all_workers (main_params cfg)) λ workers. done (
        some (record {
          globals = options_of "" cfg;
          label_map = m;
          pid_file = (
            effective cfg "core_pid_folder" "/var/run/",
            effective cfg "writer_id" "mdt-dialout-collector",
          );
          workers = workers;
        })))

pub no_sockets-main_params :
    (cfg : Config) → no_sockets (main_params cfg) ≡ done (has_no_socket cfg)
unfolding value_at
no_sockets-main_params cfg =
    let r = main_params-MainReads cfg in
    rw (r.cisco.socket, r.juniper.socket, r.nokia.socket, r.huawei.socket) refl

load_label_maps-label_map_of :
    (files : Csv) (machine : Machine) (cfg : Config)
    → manipulation_valid machine cfg ≡ true
    → load_label_maps files (manipulation_params cfg) ≡ label_map_of files cfg
unfolding reload_label_maps
load_label_maps-label_map_of files machine cfg valid =
    reload_label_maps_accepted files machine cfg [] valid

or_exit-accept_if :
    {A : Type 0} (test : Bool) (a : A)
    → or_exit (accept_if test a) ≡ (if test then done a else thrown exit_failure)
or_exit-accept_if true a = refl
or_exit-accept_if false a = refl

configure_found :
    (machine : Machine) (cfg_path : String) {cfg : Config}
    → machine.read_file cfg_path ≡ some cfg
    → configure machine cfg_path
      ≡ (if options_valid machine cfg then done (options_of "" cfg) else thrown exit_failure)
configure_found machine cfg_path {cfg} found =
    configure-load_settings machine cfg_path
    ∙ rw (load_settings-accept_if machine cfg_path "", found)
        (or_exit-accept_if (options_valid machine cfg) (options_of "" cfg))

configure_missing :
    (machine : Machine) (cfg_path : String)
    → machine.read_file cfg_path ≡ none
    → configure machine cfg_path ≡ thrown exit_failure
configure_missing machine cfg_path missing =
    configure-load_settings machine cfg_path
    ∙ rw (load_settings-accept_if machine cfg_path "", missing) refl

manipulation_of :
    (machine : Machine) (cfg : Config)
    → options_valid machine cfg ≡ true
    → manipulation_valid machine cfg ≡ true
manipulation_of machine cfg valid =
    first_of (manipulation_valid machine cfg) _
      (last_of (main_valid machine cfg) _ (last_of (logs_valid cfg) _ valid))

started :
    (files : Csv) (opens : Opens) (cfg : Config)
    → (bind (label_map_of files cfg) λ m.
        if has_no_socket cfg
        then done none
        else with_poller opens (
            bind (load_all_threads (main_params cfg)) λ workers. done (
              some (record {
                globals = options_of "" cfg;
                label_map = m;
                pid_file = (
                  effective cfg "core_pid_folder" "/var/run/",
                  effective cfg "writer_id" "mdt-dialout-collector",
                );
                workers = workers;
              }))))
      ≡ daemon_of files opens cfg
started files opens cfg = elim (Bool-cases opens.sock_pull) [
  | inr off ↦ rw off refl
  | inl on ↦ elim (Bool-cases opens.shutdown_pipe) [
    | inr off ↦ rw (on, off) refl
    | inl piped ↦ rw (on, piped) refl
  ]
]

start_valid :
    (machine : Machine) (files : Csv) (opens : Opens) (cfg_path : String) (cfg : Config)
    → configure machine cfg_path ≡ done (options_of "" cfg)
    → options_valid machine cfg ≡ true
    → start_logged machine files opens cfg_path
      ≡ (if opens.pid_file then daemon_of files opens cfg else done none)
unfolding start_logged value_at
start_valid machine files opens cfg_path cfg configured valid =
    let r = main_params-MainReads cfg in
    let maps = load_label_maps-label_map_of files machine cfg (manipulation_of machine cfg valid) in
    elim (Bool-cases opens.pid_file) [
      | inr off ↦ rw (configured, r.core_pid_folder, r.writer_id, off) refl
      | inl on ↦
          rw (configured, r.core_pid_folder, r.writer_id, on, maps, no_sockets-main_params cfg)
            (started files opens cfg)
    ]

start_logged-daemon_of :
    (machine : Machine) (files : Csv) (opens : Opens) (cfg_path : String) {cfg : Config}
    → machine.read_file cfg_path ≡ some cfg
    → start_logged machine files opens cfg_path ≡ (
        if options_valid machine cfg
        then (if opens.pid_file then daemon_of files opens cfg else done none)
        else thrown exit_failure)
unfolding start_logged
start_logged-daemon_of machine files opens cfg_path {cfg} found =
    elim (Bool-cases (options_valid machine cfg)) [
      | inr bad ↦ rw (configure_found machine cfg_path found, bad) refl
      | inl valid ↦ rw valid (
          start_valid machine files opens cfg_path cfg
            (configure_found machine cfg_path found ∙ rw valid refl) valid)
    ]

daemon_loggers-accept_if :
    (machine : Machine) (cfg_path : String) (making : Making) {cfg : Config}
    → making.syslog ≡ true
    → making.console ≡ true
    → machine.read_file cfg_path ≡ some cfg
    → daemon_loggers machine cfg_path making
      ≡ (if logs_valid cfg then done (logger_of cfg ∷ boot_logger ∷ []) else thrown exit_failure)
unfolding daemon_loggers get_logger
daemon_loggers-accept_if machine cfg_path making {cfg} syslog console found =
    rw
      (
        logs_handler-get_logger making [] syslog console,
        lookup_logs_parameters-accept_if machine cfg_path,
        found,
      )
      (elim (Bool-cases (logs_valid cfg)) [
        | inl valid ↦
            rw (valid, set_spdlog_sinks-logger_of cfg making (boot_logger ∷ []) syslog console refl)
              refl
        | inr bad ↦ rw bad refl
      ])

daemon_loggers_missing :
    (machine : Machine) (cfg_path : String) (making : Making)
    → making.syslog ≡ true
    → making.console ≡ true
    → machine.read_file cfg_path ≡ none
    → daemon_loggers machine cfg_path making ≡ thrown exit_failure
unfolding daemon_loggers get_logger
daemon_loggers_missing machine cfg_path making syslog console missing =
    rw
      (
        logs_handler-get_logger making [] syslog console,
        lookup_logs_parameters-accept_if machine cfg_path,
        missing,
      )
      refl

-- Where spdlog makes the sinks, the daemon ends if the configuration is refused. Otherwise it
-- returns EXIT_FAILURE where the PID file does not open; where it does, it loads the label map that
-- the settings ask for, and returns EXIT_FAILURE where no vendor has a socket. In all other cases it
-- ends by std::terminate where the poller's socket does not bind or there is no signal pipe, and
-- starts the threads of the four vendors where both are there. Of the settings none that is read is
-- missing, and no logger that is called before the threads.
pub start_daemon-daemon_of :
    (machine : Machine) (files : Csv) (making : Making) (opens : Opens) (cfg_path : String)
    → making.syslog ≡ true
    → making.console ≡ true
    → start_daemon machine files making opens cfg_path ≡ elim (machine.read_file cfg_path) [
      | none ↦ thrown exit_failure
      | some cfg ↦
          if options_valid machine cfg
          then (if opens.pid_file then daemon_of files opens cfg else done none)
          else thrown exit_failure
    ]
unfolding start_daemon get_logger
start_daemon-daemon_of machine files making opens cfg_path syslog console =
    elim (Option-cases (machine.read_file cfg_path)) [
      | inl missing ↦
          rw (daemon_loggers_missing machine cfg_path making syslog console missing, missing) refl
      | inr (cfg, found) ↦ elim (Bool-cases (logs_valid cfg)) [
        | inl valid ↦
            rw
              (
                daemon_loggers-accept_if machine cfg_path making syslog console found,
                found,
                ← start_logged-daemon_of machine files opens cfg_path found,
                valid,
              )
              refl
        | inr bad ↦
            rw (daemon_loggers-accept_if machine cfg_path making syslog console found, found, bad)
              refl
      ]
    ]
