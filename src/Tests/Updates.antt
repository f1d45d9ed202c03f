-- ===== src/Tests/Updates.antt =====
-- Nokia's updates and Huawei's rows at concrete inputs.
use mathlib.Core.List.{map}
use mdt_dialout_collector.Common.{some, none, List, [], ◌∷◌, ◌≡◌}
use mdt_dialout_collector.Common.Text.{codes}
use mdt_dialout_collector.Json.Assign.{assigned}
use mdt_dialout_collector.Json.Tree.{Tree, tree_json, tree_json-IsLawful}
use mdt_dialout_collector.Payload.Nokia.{
  PathElem, Notification, slashed, path_element, sensor_path, nokia_update,
}
use mdt_dialout_collector.Payload.Nokia.Members.{IsElement, nokia_update-notified}
use mdt_dialout_collector.Common.{true, refl}
use mdt_dialout_collector.Common.Number.{pos}
use mdt_dialout_collector.Payload.Huawei.{
  HuaweiTelemetry, decoded_of, huawei_gpb_openconfig_interface,
}
use mdt_dialout_collector.Payload.Huawei.Rows.{huawei_gpb_openconfig_interface-decoded}

abbrev elem : PathElem
elem = record { name = codes "state"; key = (codes "port", codes "1/1/1") ∷ [] }

abbrev notification : Notification
notification = record {
  timestamp = pos 1700000000;
  prefix = elem ∷ [];
  update =
      record { path = elem ∷ []; json_ietf_val = codes "7" }
      ∷ record { path = elem ∷ []; json_ietf_val = codes "8" }
      ∷ [];
}

nokia_update-notified_example :
    (root : Tree) × (nokia_update tree_json (some notification) tree_json.null
      ≡ tree_json.write root)
    × ((e : PathElem) (elems : List PathElem)
        → tree_json.member? root (slashed (e ∷ elems))
          ≡ assigned
              (slashed (e ∷ elems))
              ((slashed (elem ∷ []), tree_json.of_string (codes "7"))
                ∷ (slashed (elem ∷ []), tree_json.of_string (codes "8"))
                ∷ [])
              none)
    × (tree_json.member? root (codes "collected_path")
        ≡ some (tree_json.of_string (slashed (elem ∷ []))))
    × (tree_json.member? root (codes "sensor_path")
        ≡ some (sensor_path tree_json (elem ∷ []) tree_json.array))
    × (tree_json.items (sensor_path tree_json (elem ∷ []) tree_json.array)
        ≡ map (path_element tree_json) (elem ∷ []))
    × ((e : PathElem) → IsElement tree_json e (path_element tree_json e))
    × (tree_json.member? root (codes "notification_timestamp")
        ≡ some (tree_json.of_uint 1700000000))
nokia_update-notified_example = nokia_update-notified tree_json tree_json-IsLawful notification

-- A message of Huawei with two rows.
abbrev two_rows : HuaweiTelemetry
two_rows = record {
  collection_id = 1;
  collection_start_time = 2;
  collection_end_time = 3;
  current_period = 10;
  encoding = 0;
  except_desc = codes "OK";
  msg_timestamp = 4;
  node_id_str = codes "n";
  product_name = codes "p";
  proto_path = codes "openconfig_interfaces.Interfaces";
  sensor_path = codes "s";
  software_version = codes "v";
  subscription_id_str = codes "i";
  has_data_gpb = true;
  rows = codes "a" ∷ codes "b" ∷ [];
}

huawei_gpb_openconfig_interface-decoded_example :
    (final : Tree) × (huawei_gpb_openconfig_interface tree_json some two_rows
      ≡ (true, tree_json.write final))
    × (tree_json.items (decoded_of tree_json some final)
        ≡ tree_json.of_string (codes "a") ∷ tree_json.of_string (codes "b") ∷ [])
huawei_gpb_openconfig_interface-decoded_example =
    huawei_gpb_openconfig_interface-decoded tree_json tree_json-IsLawful some two_rows
      (codes "a", codes "a") ((codes "b", codes "b") ∷ []) refl (refl, (refl, tt))
