-- ===== src/Payload/Huawei.antt =====
-- HuaweiGpbOpenconfigInterface, over the messages of proto/Huawei/huawei_telemetry.proto.
pub mod Rows
use mdt_dialout_collector.Common.{ℕ, Bool, true, false, Option, none, some, List, [], ◌∷◌}
use mdt_dialout_collector.Common.Text.{Bytes, codes}
use mdt_dialout_collector.Json.{Jsoncpp}
use mdt_dialout_collector.Json.Assign.{assign}

-- Telemetry, as far as the program reads it; `rows` are the contents of the rows of `data_gpb`
pub record HuaweiTelemetry : Type 0 where
  pub collection_id : ℕ
  pub collection_start_time : ℕ
  pub collection_end_time : ℕ
  pub current_period : ℕ
  pub encoding : ℕ
  pub except_desc : Bytes
  pub msg_timestamp : ℕ
  pub node_id_str : Bytes
  pub product_name : Bytes
  pub proto_path : Bytes
  pub sensor_path : Bytes
  pub software_version : Bytes
  pub subscription_id_str : Bytes
  pub has_data_gpb : Bool
  pub rows : List Bytes

-- `decode` is what protobuf makes of a row's content: `ParseFromString` of an
-- openconfig_interfaces.Interfaces, none where it fails, with `MessageToJsonString`.
module _ (J : Jsoncpp) (decode : Bytes → Option Bytes) where
  abbrev pub huawei_header : HuaweiTelemetry → List (Bytes × J.Value)
  huawei_header t =
      (codes "collection_id", J.of_uint t.collection_id)
      ∷ (codes "collection_start_time", J.of_uint t.collection_start_time)
      ∷ (codes "collection_end_time", J.of_uint t.collection_end_time)
      ∷ (codes "current_period", J.of_uint t.current_period)
      ∷ (codes "encoding", J.of_uint t.encoding)
      ∷ (codes "except_desc", J.of_string t.except_desc)
      ∷ (codes "msg_timestamp", J.of_uint t.msg_timestamp)
      ∷ (codes "node_id_str", J.of_string t.node_id_str)
      ∷ (codes "product_name", J.of_string t.product_name)
      ∷ (codes "proto_path", J.of_string t.proto_path)
      ∷ (codes "sensor_path", J.of_string t.sensor_path)
      ∷ (codes "software_version", J.of_string t.software_version)
      ∷ (codes "subscription_id_str", J.of_string t.subscription_id_str)
      ∷ []

  -- `root["decoded"]`, which is null where there is none
  abbrev pub decoded_of : J.Value → J.Value
  decoded_of root = elim (J.member? root (codes "decoded")) [ none ↦ J.null | some v ↦ v ]

  -- `root["decoded"].append(content_s)`
  abbrev pub add_decoded : Bytes → J.Value → J.Value
  add_decoded text root =
      J.set root (codes "decoded") (J.append (decoded_of root) (J.of_string text))

  -- the loop over the rows: whether all were read, and `json_str_out`
  unfoldable pub decode_rows : List Bytes → J.Value → Bytes → Bool × Bytes
  decode_rows [] root json_str_out = (true, json_str_out)
  decode_rows (content ∷ rows) root json_str_out = elim (decode content) [
    | none ↦ (false, json_str_out)
    | some text ↦ decode_rows rows (add_decoded text root) (J.write (add_decoded text root))
  ]

  -- HuaweiGpbOpenconfigInterface, from an empty `json_str_out`
  unfoldable pub huawei_gpb_openconfig_interface : HuaweiTelemetry → Bool × Bytes
  unfolding decode_rows
  huawei_gpb_openconfig_interface t = decode_rows t.rows (assign J (huawei_header t) J.null) []
