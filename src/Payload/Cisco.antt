-- ===== src/Payload/Cisco.antt =====
-- CiscoGpbkv2Json and CiscoGpbkvField2Json, over the messages of proto/Cisco/cisco_telemetry.proto.
pub mod Field
use mdt_dialout_collector.Common.{
  ℕ, Bool, not, Option, none, some, List, [], ◌∷◌, ◌++◌, ◌==◌, if◌then◌else◌,
}
use mdt_dialout_collector.Common.Number.{ℤ}
use mdt_dialout_collector.Common.Text.{Bytes, codes, is_empty}
use mdt_dialout_collector.Json.{Jsoncpp}
use mdt_dialout_collector.Json.Assign.{assign}

-- `oneof value_by_type`
pub data Scalar (R : Type 0) : Type 0 where
  no_value : Scalar R
  bytes_value string_value : Bytes → Scalar R
  bool_value : Bool → Scalar R
  uint32_value uint64_value : ℕ → Scalar R
  sint32_value sint64_value : ℤ → Scalar R
  double_value float_value : R → Scalar R

-- TelemetryField: its timestamp, name, value and fields
mutual
  pub data TelemetryField (R : Type 0) : Type 0 where
    telemetry_field : ℕ → Bytes → Scalar R → TelemetryFields R → TelemetryField R

  pub data TelemetryFields (R : Type 0) : Type 0 where
    end : TelemetryFields R
    more : TelemetryField R → TelemetryFields R → TelemetryFields R

abbrev pub field_name : {R : Type 0} → TelemetryField R → Bytes
field_name (telemetry_field timestamp name value fields) = name

-- Telemetry, as far as the program reads it; the two `oneof`s are there or not
pub record Telemetry (R : Type 0) : Type 0 where
  pub node_id_str : Option Bytes
  pub subscription_id_str : Option Bytes
  pub encoding_path : Bytes
  pub collection_id : ℕ
  pub collection_start_time : ℕ
  pub msg_timestamp : ℕ
  pub collection_end_time : ℕ
  pub data_gpbkv : TelemetryFields R
  pub has_data_gpb : Bool

module _ (J : Jsoncpp) where
  -- the ladder over `has_…_value`
  abbrev pub scalar_json : Scalar J.Real → J.Value
  scalar_json no_value = J.null
  scalar_json (bytes_value s) = J.of_string s
  scalar_json (string_value s) = J.of_string s
  scalar_json (bool_value b) = J.of_bool b
  scalar_json (uint32_value n) = J.of_uint n
  scalar_json (uint64_value n) = J.of_uint n
  scalar_json (sint32_value n) = J.of_int n
  scalar_json (sint64_value n) = J.of_int n
  scalar_json (double_value r) = J.of_real r
  scalar_json (float_value r) = J.of_real r

  -- a value under its name, or bare where there is no name
  abbrev pub named : Bytes → J.Value → J.Value
  named name value = if is_empty name then value else J.set J.null name value

  -- the end of CiscoGpbkvField2Json: the object, or the bare value where it would be empty
  unfoldable pub finish_field : ℕ → J.Value → J.Value → J.Value
  finish_field timestamp value sub_fields =
      let stamped =
        if not (timestamp == 0)
        then J.set J.null (codes "timestamp") (J.of_uint timestamp)
        else J.null in
      let root =
        if not (J.is_empty sub_fields)
        then J.set stamped (codes "fields") sub_fields
        else stamped in
      if not (J.is_empty root)
      then (if not (J.is_empty value) then J.set root (codes "value") value else root)
      else value

  -- CiscoGpbkvField2Json, and its loop over the fields below
  unfoldable mutual
    pub cisco_gpbkv_field2json : TelemetryField J.Real → J.Value
    cisco_gpbkv_field2json (telemetry_field timestamp name value fields) =
        finish_field timestamp (scalar_json value) (cisco_sub_fields fields J.null)

    pub cisco_sub_fields : TelemetryFields J.Real → J.Value → J.Value
    cisco_sub_fields end sub_fields = sub_fields
    cisco_sub_fields (more f fields) sub_fields =
        cisco_sub_fields fields
          (J.append sub_fields (named (field_name f) (cisco_gpbkv_field2json f)))

  abbrev opt_member : Bytes → Option Bytes → List (Bytes × J.Value)
  opt_member key none = []
  opt_member key (some s) = (key, J.of_string s) ∷ []

  -- CiscoGpbkv2Json: its loop is that of the sub-fields, and it always succeeds
  unfoldable pub cisco_gpbkv2json : Telemetry J.Real → Bytes
  unfolding cisco_gpbkv_field2json
  cisco_gpbkv2json t = J.write (
      assign J
        (opt_member (codes "node_id") t.node_id_str
          ++ (opt_member (codes "subscription_id") t.subscription_id_str
              ++ ((codes "encoding_path", J.of_string t.encoding_path)
                  ∷ (codes "collection_id", J.of_uint t.collection_id)
                  ∷ (codes "collection_start_time", J.of_uint t.collection_start_time)
                  ∷ (codes "msg_timestamp", J.of_uint t.msg_timestamp)
                  ∷ (codes "collection_end_time", J.of_uint t.collection_end_time)
                  ∷ (codes "data_gpbkv", cisco_sub_fields t.data_gpbkv J.null)
                  ∷ [])))
        J.null)
