-- ===== src/Tests/Starting.antt =====
-- The start and the stop of the daemon and of the bridge at concrete inputs.
use mdt_dialout_collector.Startup.Bridge.{start_loggers, start_with, load_vendor_threads}
use mdt_dialout_collector.Startup.{load_settings}
use mathlib.Core.List.{map}
use mdt_dialout_collector.Common.{
  true, false, ◌≤◌, none, some, [], ◌∷◌, ◌++◌, ◌≡◌, refl, done, thrown, exit_failure, logger_exists,
  All, if◌then◌else◌,
}
use mdt_dialout_collector.Common.Text.{codes}
use mdt_dialout_collector.Labels.{put_label}
use mdt_dialout_collector.Labels.Csv.{load_label_map}
use mdt_dialout_collector.Config.Params.{accepted, Params, emplace, find, value_at}
use mdt_dialout_collector.Labels.{LabelMap}
use mdt_dialout_collector.Labels.Reload.{Csv, reload_label_maps}
use mdt_dialout_collector.Labels.Paired.{IsPaired}
use mdt_dialout_collector.Server.Registry.{cisco, Servers, initiate_shutdown}
use mdt_dialout_collector.Server.Registry.Shutdown.{IsDown}
use mdt_dialout_collector.Startup.Options.{options_valid, options_of, load_settings-accept_if}
use mdt_dialout_collector.Logging.{Making, get_logger}
use mdt_dialout_collector.Startup.Daemon.{Daemon, Opens, start_daemon}
use mdt_dialout_collector.Startup.Daemon.Workers.{AllWorkers, start_daemon-AllWorkers}
use mdt_dialout_collector.Config.Load.{Config, effective, admits, admits_path, exists, is_allowed}
use mdt_dialout_collector.Config.Main.Workers.{
  socket_valid, workers_valid, socket_value, workers_params,
}
use mdt_dialout_collector.Config.Main.Accepts.{main_params}
use mdt_dialout_collector.Common.Number.{stoi}
use mdt_dialout_collector.Startup.Threads.{load_bridge_threads, load_threads, read_amounts}
use mdt_dialout_collector.Startup.Daemon.Starts.{daemon_of, start_daemon-daemon_of}
use mdt_dialout_collector.Startup.Watch.{
  sigusr1, sigterm, Watched, signal_watcher, signal_watcher-IsDown,
}
use mdt_dialout_collector.Startup.Bridge.{
  Bridge, Created, start_grpc_dialout_collector, stop_grpc_dialout_collector,
}
use mdt_dialout_collector.Startup.Bridge.Starts.{
  both_loggers, start_loggers-boot_logger, start_grpc_dialout_collector-logger_exists,
}
use mdt_dialout_collector.Tests.Configuration.{file, machine}

-- Label files with one row.
abbrev one_row : Csv
one_row = record {
  read_csv = λ _. some (codes "192.0.2.7" ∷ [], codes "n1" ∷ [], codes "p1" ∷ []);
  read_ptm = λ _. none;
}

abbrev ready : Making
ready = record { syslog = true; console = true }

abbrev all_open : Opens
all_open = record { pid_file = true; sock_pull = true; shutdown_pipe = true }

start_daemon-daemon_of_example :
    start_daemon machine one_row ready all_open "mdt.conf"
    ≡ (if options_valid machine file then daemon_of one_row all_open file else thrown exit_failure)
start_daemon-daemon_of_example =
    start_daemon-daemon_of machine one_row ready all_open "mdt.conf" refl refl

abbrev cisco_daemon : Daemon
cisco_daemon = record {
  globals = options_of "" file;
  label_map = [];
  pid_file = ("/var/run/", "mdt-dialout-collector");
  workers = "socket_cisco" ∷ [];
}

cisco_starts : start_daemon machine one_row ready all_open "mdt.conf" ≡ done (some cisco_daemon)
unfolding effective admits admits_path exists socket_valid workers_valid socket_value is_allowed
    load_threads value_at main_params emplace workers_params read_amounts stoi
cisco_starts = start_daemon-daemon_of machine one_row ready all_open "mdt.conf" refl refl

start_daemon-AllWorkers_example :
    (cfg : Config) × (machine.read_file "mdt.conf" ≡ some cfg)
    × (options_valid machine cfg ≡ true)
    × (true ≡ true)
    × (true ≡ true)
    × AllWorkers cfg ("socket_cisco" ∷ [])
    × (1 ≤ 1)
    × (1 ≤ 20)
start_daemon-AllWorkers_example =
    start_daemon-AllWorkers machine one_row ready all_open "mdt.conf" refl refl cisco_starts

abbrev one_server : Servers
one_server = record {
  heap =
      record { shutdown_done = false; active_vendor = cisco; has_server = true; has_cq = true }
      ∷ [];
  active = 0 ∷ [];
  halted = [];
}

abbrev with_csv : Params
with_csv =
    ("enable_label_encode_as_map", "true")
    ∷ ("label_map_csv_path", "labels.csv")
    ∷ ("enable_label_encode_as_map_ptm", "false")
    ∷ []

abbrev reloaded : LabelMap
reloaded = (codes "192.0.2.7", codes "n1" ∷ codes "p1" ∷ []) ∷ []

abbrev watched : Watched
watched = record { label_map = []; servers = one_server; zmq_down = false }

reload_done : reload_label_maps one_row with_csv [] ≡ done reloaded
unfolding reload_label_maps value_at find load_label_map put_label
reload_done = refl

signal_watcher-IsDown_example :
    (w' : Watched) × (signal_watcher with_csv
        (map sigusr1 (one_row ∷ []) ++ (sigterm ∷ sigterm ∷ []))
        watched
      ≡ done (true, w'))
    × All (IsDown w'.servers) (0 ∷ [])
    × (w'.zmq_down ≡ true)
    × (w'.label_map ≡ reloaded)
    × IsPaired w'.label_map
signal_watcher-IsDown_example =
    signal_watcher-IsDown with_csv (one_row ∷ []) (sigterm ∷ []) watched (rw reload_done refl) tt
      ((_, refl), tt)

abbrev idle_bridge : Bridge
idle_bridge = record { loggers = []; servers = one_server; active_workers = []; joined = [] }

abbrev one_fails : Created
one_fails = record { cisco = false ∷ []; juniper = []; nokia = []; huawei = [] }

-- A process without servers, in which the collector is started and stopped.
abbrev calm_bridge : Bridge
calm_bridge = record idle_bridge { servers = record { heap = []; active = []; halted = [] } }

abbrev started_bridge : Bridge
started_bridge = record calm_bridge { loggers = both_loggers file [] }

calm_loggers : start_loggers machine "mdt.conf" ready [] ≡ done started_bridge.loggers
unfolding get_logger effective admits exists is_allowed
calm_loggers = start_loggers-boot_logger machine "mdt.conf" ready [] refl refl refl refl

calm_settings :
    load_settings machine "mdt.conf" "ipc:///tmp/x.sock"
    ≡ accepted (options_of "ipc:///tmp/x.sock" file)
unfolding effective admits admits_path exists socket_valid workers_valid socket_value is_allowed
calm_settings = load_settings-accept_if machine "mdt.conf" "ipc:///tmp/x.sock"

calm_threads :
    start_with one_fails started_bridge (accepted (options_of "ipc:///tmp/x.sock" file))
    ≡ done started_bridge
unfolding start_with load_vendor_threads load_bridge_threads effective exists socket_value value_at
    main_params emplace workers_params read_amounts stoi
calm_threads = refl

calm_starts :
    start_grpc_dialout_collector machine "mdt.conf" "ipc:///tmp/x.sock" ready one_fails calm_bridge
    ≡ done started_bridge
unfolding start_grpc_dialout_collector get_logger
calm_starts = rw (calm_loggers, calm_settings) calm_threads

calm_stops : stop_grpc_dialout_collector [] started_bridge ≡ done (true, started_bridge)
unfolding stop_grpc_dialout_collector initiate_shutdown
calm_stops = refl

start_grpc_dialout_collector-logger_exists_example :
    start_grpc_dialout_collector machine "mdt.conf" "ipc:///tmp/y.sock" ready one_fails
      started_bridge
    ≡ thrown logger_exists
unfolding get_logger
start_grpc_dialout_collector-logger_exists_example =
    start_grpc_dialout_collector-logger_exists machine "mdt.conf" "ipc:///tmp/x.sock" ready
      one_fails calm_bridge started_bridge started_bridge [] true machine "mdt.conf"
      "ipc:///tmp/y.sock" ready one_fails refl refl refl refl calm_starts calm_stops refl refl
