-- ===== src/Config/DataManipulation.antt =====
-- DataManipulationCfgHandler::lookup_data_manipulation_parameters
pub mod Accepts
use text.Mathlib.Text.{◌==◌}
use mdt_dialout_collector.Common.{String, ◌&&◌, [], if◌then◌else◌}
use mdt_dialout_collector.Config.Params.{Params, at, Load, accepted, rejected, ◌>>=◌}
use mdt_dialout_collector.Config.Load.{Config, Machine, load_optional, load_optional_path}
use mdt_dialout_collector.Config.Logs.{set_parameters}

-- `enable_label_encode_as_map…`, and the path that it makes mandatory
unfoldable pub load_label_map : Machine → Config → Params → String → String → String → Load Params
load_label_map machine cfg params enable path_key default_path = do
  params ← load_optional cfg params enable "false"
  enabled ← at params enable
  if enabled == "true"
      then load_optional_path machine cfg params path_key default_path
      else accepted params

unfoldable pub lookup_data_manipulation_parameters : Machine → String → Load Params
unfolding set_parameters load_label_map
lookup_data_manipulation_parameters machine cfg_path = do
  dmp ← set_parameters machine cfg_path
  params ← load_optional dmp [] "enable_cisco_message_to_json_string" "false"
  params ← load_optional dmp params "enable_cisco_gpbkv2json" "true"
  to_json_string ← at params "enable_cisco_message_to_json_string"
  gpbkv2json ← at params "enable_cisco_gpbkv2json"
  if to_json_string == gpbkv2json then rejected else (do
    params ←
        load_label_map machine dmp params "enable_label_encode_as_map" "label_map_csv_path"
          "/opt/mdt_dialout_collector/csv/label_map.csv"
    params ←
        load_label_map machine dmp params "enable_label_encode_as_map_ptm" "label_map_ptm_path"
          "/opt/mdt_dialout_collector/ptm/label_map.ptm"
    csv ← at params "enable_label_encode_as_map"
    ptm ← at params "enable_label_encode_as_map_ptm"
    if csv == "true" && ptm == "true" then rejected else accepted params)
