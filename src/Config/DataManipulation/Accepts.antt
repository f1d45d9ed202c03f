-- ===== src/Config/DataManipulation/Accepts.antt =====
-- Which files the data-manipulation handler accepts, and the map that it fills.
use text.Mathlib.Text.{◌==◌}
use mdt_dialout_collector.Common.{
  String, Bool, true, not, ◌&&◌, none, some, [], ◌∷◌, ◌≡◌, arith, if◌then◌else◌,
}
use mdt_dialout_collector.Config.Params.{Params, emplace, at, rejected, accept_if}
use mdt_dialout_collector.Config.Load.{
  Config, Machine, effective, admits, nonempty, admits_path, load_optional_lem,
  load_optional_path_lem,
}
use mdt_dialout_collector.Config.DataManipulation.{lookup_data_manipulation_parameters}

-- The two label maps: whether the file enables them, and their paths.
abbrev pub csv_on : Config → Bool
csv_on cfg = effective cfg "enable_label_encode_as_map" "false" == "true"

abbrev pub ptm_on : Config → Bool
ptm_on cfg = effective cfg "enable_label_encode_as_map_ptm" "false" == "true"

abbrev pub default_csv : String
default_csv = "/opt/mdt_dialout_collector/csv/label_map.csv"

abbrev pub default_ptm : String
default_ptm = "/opt/mdt_dialout_collector/ptm/label_map.ptm"

abbrev pub manipulation_valid : Machine → Config → Bool
manipulation_valid machine cfg =
    admits nonempty cfg "enable_cisco_message_to_json_string"
    && admits nonempty cfg "enable_cisco_gpbkv2json"
    && not (
        effective cfg "enable_cisco_message_to_json_string" "false"
        == effective cfg "enable_cisco_gpbkv2json" "true")
    && admits nonempty cfg "enable_label_encode_as_map"
    && (if csv_on cfg then admits_path machine cfg "label_map_csv_path" default_csv else true)
    && admits nonempty cfg "enable_label_encode_as_map_ptm"
    && (if ptm_on cfg then admits_path machine cfg "label_map_ptm_path" default_ptm else true)
    && not (csv_on cfg && ptm_on cfg)

-- At most one of the two paths is in the map.
abbrev pub manipulation_params : Config → Params
manipulation_params cfg =
    let base =
      ("enable_cisco_gpbkv2json", effective cfg "enable_cisco_gpbkv2json" "true")
      ∷ (
        "enable_cisco_message_to_json_string",
        effective cfg "enable_cisco_message_to_json_string" "false",
      )
      ∷ [] in
    let csv =
      ("enable_label_encode_as_map", effective cfg "enable_label_encode_as_map" "false") ∷ base in
    let ptm = effective cfg "enable_label_encode_as_map_ptm" "false" in
    if csv_on cfg
    then ("enable_label_encode_as_map_ptm", ptm)
      ∷ ("label_map_csv_path", effective cfg "label_map_csv_path" default_csv)
      ∷ csv
    else if ptm_on cfg
    then ("label_map_ptm_path", effective cfg "label_map_ptm_path" default_ptm)
      ∷ ("enable_label_encode_as_map_ptm", ptm)
      ∷ csv
    else ("enable_label_encode_as_map_ptm", ptm) ∷ csv

-- The handler rejects an unreadable file. It accepts a file exactly where each setting that it
-- reads is admissible, the two Cisco conversions differ, at most one label map is enabled and the
-- path of an enabled one names a file that is there. The map then holds the settings that it
-- read, each with its text or its default. It throws nothing.
pub lookup_data_manipulation_parameters-accept_if :
    (machine : Machine) (cfg_path : String)
    → lookup_data_manipulation_parameters machine cfg_path ≡ elim (machine.read_file cfg_path) [
      | none ↦ rejected
      | some cfg ↦ accept_if (manipulation_valid machine cfg) (manipulation_params cfg)
    ]
unfolding lookup_data_manipulation_parameters emplace at
lookup_data_manipulation_parameters-accept_if machine cfg_path =
    simp (load_optional_lem, load_optional_path_lem) (ground arith)
