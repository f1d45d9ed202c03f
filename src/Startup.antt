-- ===== src/Startup.antt =====
-- How the program starts: the configuration and the threads, in src/mdt_dialout_collector.cc for the
-- daemon and in src/bridge/grpc_collector_bridge.cc for the library.
pub mod Options
pub mod Threads
pub mod InitOptions
pub mod Arguments
pub mod Daemon
pub mod VendorThread
pub mod Watch
pub mod Bridge
pub mod Joins
use mdt_dialout_collector.Common.{String, [], Partial, done, thrown, exit_failure, bind}
use mdt_dialout_collector.Config.Params.{Params, Load, accepted, rejected, threw, ◌>>=◌}
use mdt_dialout_collector.Config.Load.{Machine}
use mdt_dialout_collector.Config.Logs.{lookup_logs_parameters}
use mdt_dialout_collector.Config.Main.{lookup_main_parameters}
use mdt_dialout_collector.Config.DataManipulation.{lookup_data_manipulation_parameters}
use mdt_dialout_collector.Config.Kafka.{lookup_kafka_parameters}
use mdt_dialout_collector.Config.Zmq.{lookup_zmq_parameters}

-- the five global maps
pub record Globals : Type 0 where
  pub logs : Params
  pub main : Params
  pub data_manipulation : Params
  pub kafka : Params
  pub zmq : Params

-- The five handlers of LoadOptions of the bridge, where `rejected` is 0. The loggers that it makes in
-- between are start_loggers of Bridge.
unfoldable pub load_settings : Machine → String → String → Load Globals
load_settings machine cfg_path zmq_uri = do
  logs ← lookup_logs_parameters machine cfg_path
  main ← lookup_main_parameters machine cfg_path
  data_manipulation ← lookup_data_manipulation_parameters machine cfg_path
  kafka ← lookup_kafka_parameters machine main cfg_path
  zmq ← lookup_zmq_parameters main zmq_uri []
  accepted (record {
    logs = logs;
    main = main;
    data_manipulation = data_manipulation;
    kafka = kafka;
    zmq = zmq;
  })

-- `if (… == false) { std::exit(EXIT_FAILURE); }`
abbrev pub or_exit : {A : Type 0} → Load A → Partial A
or_exit (accepted a) = done a
or_exit rejected = thrown exit_failure
or_exit (threw e) = thrown e

-- the handlers in `main`
unfoldable pub configure : Machine → String → Partial Globals
configure machine cfg_path = bind (or_exit (lookup_logs_parameters machine cfg_path)) λ logs.
    bind (or_exit (lookup_main_parameters machine cfg_path)) λ main.
      bind (or_exit (lookup_data_manipulation_parameters machine cfg_path)) λ manipulation.
        bind (or_exit (lookup_kafka_parameters machine main cfg_path)) λ kafka.
          bind (or_exit (lookup_zmq_parameters main "" [])) λ zmq. done (record {
            logs = logs;
            main = main;
            data_manipulation = manipulation;
            kafka = kafka;
            zmq = zmq;
          })
