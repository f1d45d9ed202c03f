-- ===== src/Tests/Configuration.antt =====
-- The configuration at a concrete file.
use text.Mathlib.Text.{◌==◌}
use mdt_dialout_collector.Common.{none, true, some, [], ◌∷◌, ◌≡◌, refl, if◌then◌else◌}
use mdt_dialout_collector.Config.Params.{Params, accepted}
use mdt_dialout_collector.Config.Load.{
  absent, string, Config, Machine, exists, effective, admits, admits_path, is_allowed,
}
use mdt_dialout_collector.Config.Main.{lookup_main_parameters}
use mdt_dialout_collector.Config.Main.Workers.{socket_value, socket_valid, workers_valid}
use mdt_dialout_collector.Config.Main.Accepts.{
  main_valid, main_params, lookup_main_parameters-accept_if,
}
use mdt_dialout_collector.Config.Main.Reads.{MainReads, lookup_main_parameters-MainReads}
use mdt_dialout_collector.Startup.Options.{options_valid}
use mdt_dialout_collector.Common.Text.{codes}
use mdt_dialout_collector.Labels.Reload.{Csv}

-- A file with one socket, of Cisco, and with ZMQ.
abbrev pub file : Config
file key =
    if key == "iface"
    then string "eth0"
    else if key == "socket_cisco"
    then string "0.0.0.0:10007"
    else if key == "data_delivery_method"
    then string "zmq"
    else absent

abbrev pub machine : Machine
machine = record { read_file = λ _. some file; file_exists = λ _. true }

abbrev zmq_main : Params
zmq_main = ("data_delivery_method", "zmq") ∷ []

accepted_main : lookup_main_parameters machine "mdt.conf" ≡ accepted (main_params file)
unfolding effective admits admits_path exists socket_valid workers_valid socket_value is_allowed
accepted_main = lookup_main_parameters-accept_if machine "mdt.conf"

lookup_main_parameters-MainReads_example :
    (cfg : Config) × (machine.read_file "mdt.conf" ≡ some cfg)
    × (main_valid machine cfg ≡ true)
    × MainReads cfg (main_params file)
lookup_main_parameters-MainReads_example =
    lookup_main_parameters-MainReads machine "mdt.conf" accepted_main

valid_options : options_valid machine file ≡ true
unfolding effective admits admits_path exists socket_valid workers_valid socket_value is_allowed
valid_options = refl

abbrev with_csv : Config
with_csv key = if key == "enable_label_encode_as_map" then string "true" else absent

abbrev files : Csv
files = record {
  read_csv = λ _. some (codes "192.0.2.7" ∷ [], codes "n1" ∷ [], codes "p1" ∷ []);
  read_ptm = λ _. none;
}
