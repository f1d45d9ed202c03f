-- ===== src/Startup/Options.antt =====
-- Which configuration the program starts with.
use text.Mathlib.Text.{◌==◌}
use mdt_dialout_collector.Common.{
  String, Bool, ◌&&◌, none, some, [], ◌∷◌, ◌≡◌, refl, arith, if◌then◌else◌, Option-cases, inl, inr,
}
use mdt_dialout_collector.Config.Params.{rejected, accept_if, accept_if-then, accept_if-accepted}
use mdt_dialout_collector.Config.Load.{Config, Machine, effective}
use mdt_dialout_collector.Config.Logs.Accepts.{
  logs_valid, logs_params, lookup_logs_parameters-accept_if,
}
use mdt_dialout_collector.Config.Main.Accepts.{
  main_valid, main_params, lookup_main_parameters-accept_if,
}
use mdt_dialout_collector.Config.Main.Reads.{main_params-MainReads}
use mdt_dialout_collector.Config.DataManipulation.Accepts.{
  manipulation_valid, manipulation_params, lookup_data_manipulation_parameters-accept_if,
}
use mdt_dialout_collector.Config.Kafka.Accepts.{
  kafka_valid, kafka_params, lookup_kafka_parameters-accept_if,
}
use mdt_dialout_collector.Config.Zmq.{lookup_zmq_parameters-find}
use mdt_dialout_collector.Startup.{Globals, load_settings, or_exit, configure}

-- `data_delivery_method`
abbrev pub method : Config → String
method cfg = effective cfg "data_delivery_method" "kafka"

abbrev pub options_valid : Machine → Config → Bool
options_valid machine cfg =
    logs_valid cfg
    && (main_valid machine cfg
        && (manipulation_valid machine cfg && kafka_valid (method cfg == "kafka") cfg))

abbrev pub options_of : String → Config → Globals
options_of zmq_uri cfg = record {
  logs = logs_params cfg;
  main = main_params cfg;
  data_manipulation = manipulation_params cfg;
  kafka = kafka_params cfg;
  zmq =
      (
        "zmq_uri",
        if method cfg == "zmq"
            then (if zmq_uri == "" then "ipc:///tmp/grpc.sock" else zmq_uri)
            else "ipc:///tmp/dummy.sock",
      )
      ∷ [];
}

pub load_settings-accept_if :
    (machine : Machine) (cfg_path zmq_uri : String)
    → load_settings machine cfg_path zmq_uri ≡ elim (machine.read_file cfg_path) [
      | none ↦ rejected
      | some cfg ↦ accept_if (options_valid machine cfg) (options_of zmq_uri cfg)
    ]
unfolding load_settings
load_settings-accept_if machine cfg_path zmq_uri =
    elim (Option-cases (machine.read_file cfg_path)) [
      | inl missing ↦ rw (lookup_logs_parameters-accept_if machine cfg_path, missing) refl
      | inr (cfg, found) ↦
          let r = main_params-MainReads cfg in
          let kafka_step =
            lookup_kafka_parameters-accept_if machine (main_params cfg) cfg_path r.delivery in
          rw
            (
              lookup_logs_parameters-accept_if machine cfg_path,
              lookup_main_parameters-accept_if machine cfg_path,
              lookup_data_manipulation_parameters-accept_if machine cfg_path,
              found,
            )
            (accept_if-then (logs_valid cfg) _ (logs_params cfg) _ (options_of zmq_uri cfg) (
              accept_if-then (main_valid machine cfg) _ (main_params cfg) _ (options_of zmq_uri cfg)
                (accept_if-then (manipulation_valid machine cfg)
                  (kafka_valid (method cfg == "kafka") cfg) (manipulation_params cfg) _
                  (options_of zmq_uri cfg)
                  (rw (kafka_step, found)
                    (accept_if-accepted (kafka_valid (method cfg == "kafka") cfg) (kafka_params cfg)
                      _ (options_of zmq_uri cfg)
                      (rw (lookup_zmq_parameters-find (main_params cfg) zmq_uri r.delivery)
                        refl))))))
    ]

-- The daemon reads the same configuration as the bridge does without a ZMQ address, and ends with
-- EXIT_FAILURE where LoadOptions fails.
pub configure-load_settings :
    (machine : Machine) (cfg_path : String)
    → configure machine cfg_path ≡ or_exit (load_settings machine cfg_path "")
unfolding configure load_settings
configure-load_settings machine cfg_path = ground arith
