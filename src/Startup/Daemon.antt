-- ===== src/Startup/Daemon.antt =====
-- main of the daemon behind its options: the configuration, the PID file, the label maps, the poller
-- and the signal pipe, and the threads.
pub mod Starts
pub mod Workers
use mdt_dialout_collector.Common.{
  String, Bool, true, false, not, ◌&&◌, none, some, Option, List, [], ◌++◌, if◌then◌else◌, Partial,
  done, thrown, null_pointer, terminate, bind,
}
use mdt_dialout_collector.Common.Text.{codes, is_empty}
use mdt_dialout_collector.Config.Params.{Params, value_at}
use mdt_dialout_collector.Config.Load.{Machine}
use mdt_dialout_collector.Config.Logs.{lookup_logs_parameters}
use mdt_dialout_collector.Logging.{Logger, Making, get_logger, logs_handler, set_spdlog_sinks}
use mdt_dialout_collector.Labels.{LabelMap}
use mdt_dialout_collector.Labels.Reload.{Csv, reload_csv, reload_ptm}
use mdt_dialout_collector.Startup.{Globals, or_exit, configure}
use mdt_dialout_collector.Startup.Threads.{load_threads}

-- The daemon with its threads: the settings, the label map, the folder and the name of the PID file,
-- and the sockets that the threads serve, each thread one.
pub record Daemon : Type 0 where
  pub globals : Globals
  pub label_map : LabelMap
  pub pid_file : String × String
  pub workers : List String

-- What main opens on its way: the PID file, the poller's socket at its address, and the signal pipe.
pub record Opens : Type 0 where
  pub pid_file : Bool
  pub sock_pull : Bool
  pub shutdown_pipe : Bool

-- The poller and the signal pipe, and what main does behind them. Nothing catches what `bind` throws,
-- and where there is no pipe main returns while the poller's thread is joinable: std::terminate
-- ends the process.
abbrev pub with_poller : {A : Type 0} → Opens → Partial A → Partial A
with_poller opens rest =
    if opens.sock_pull
    then (if opens.shutdown_pipe then rest else thrown terminate)
    else thrown terminate

-- DumpCorePid, over whether the file opens
abbrev pub dump_core_pid : Bool → Bool
dump_core_pid opens = if not opens then false else true

-- whether the four sockets are all empty
abbrev pub no_sockets : Params → Partial Bool
no_sockets main = bind (value_at main "socket_cisco") λ cisco.
    bind (value_at main "socket_juniper") λ juniper. bind (value_at main "socket_nokia") λ nokia.
      bind (value_at main "socket_huawei") λ huawei. done (
        is_empty (codes cisco)
        && (is_empty (codes juniper) && (is_empty (codes nokia) && is_empty (codes huawei))))

-- the four calls of LoadThreads
abbrev pub load_all_threads : Params → Partial (List String)
load_all_threads main =
    bind (load_threads main "socket_cisco" "replies_cisco" "cisco_workers") λ cisco.
      bind (load_threads main "socket_juniper" "replies_juniper" "juniper_workers") λ juniper.
        bind (load_threads main "socket_nokia" "replies_nokia" "nokia_workers") λ nokia.
          bind (load_threads main "socket_huawei" "replies_huawei" "huawei_workers")
            λ huawei. done (cisco ++ (juniper ++ (nokia ++ huawei)))

-- the loading of the label maps, into the empty map
abbrev pub load_label_maps : Csv → Params → Partial LabelMap
load_label_maps files cfg = bind (reload_csv files cfg []) (reload_ptm files cfg)

-- main, from the handlers to the threads; none is a return of EXIT_FAILURE
unfoldable pub start_logged : Machine → Csv → Opens → String → Partial (Option Daemon)
start_logged machine files opens cfg_path = bind (configure machine cfg_path) λ g.
    bind (value_at g.main "core_pid_folder") λ folder. bind (value_at g.main "writer_id") λ file.
      if not (dump_core_pid opens.pid_file)
      then done none
      else (bind (load_label_maps files g.data_manipulation) λ m.
          bind (no_sockets g.main) λ nowhere.
            if nowhere
            then done none
            else with_poller opens (
                bind (load_all_threads g.main) λ workers. done (
                  some (record {
                    globals = g;
                    label_map = m;
                    pid_file = (folder, file);
                    workers = workers;
                  }))))

-- the loggers that main registers; the result of set_spdlog_sinks is not read
unfoldable pub daemon_loggers : Machine → String → Making → Partial (List Logger)
daemon_loggers machine cfg_path making = bind (logs_handler making []) λ booted.
    bind (or_exit (lookup_logs_parameters machine cfg_path))
      λ logs. bind (set_spdlog_sinks logs making booted) λ (_, known). done known

-- main behind its options. The constructor of MainCfgHandler, which is next, calls the multi-logger.
unfoldable pub start_daemon : Machine → Csv → Making → Opens → String → Partial (Option Daemon)
unfolding start_logged daemon_loggers
start_daemon machine files making opens cfg_path =
    bind (daemon_loggers machine cfg_path making) λ loggers.
      elim (get_logger "multi-logger" loggers) [
        | none ↦ thrown null_pointer
        | some _ ↦ start_logged machine files opens cfg_path
      ]
