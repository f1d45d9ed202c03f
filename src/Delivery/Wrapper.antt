-- ===== src/Delivery/Wrapper.antt =====
-- src/dataWrapper/data_wrapper.cc: the record that is sent by ZMQ.
use mdt_dialout_collector.Common.{ℕ, ◌+◌}
use mdt_dialout_collector.Common.Number.{u64}
use mdt_dialout_collector.Common.Text.{Bytes, codes}

pub record DataWrapper : Type 0 where
  pub sequence_number : ℕ
  pub event_type : Bytes
  pub serialization : Bytes
  pub timestamp : ℕ
  pub writer_id : Bytes
  pub telemetry_node : Bytes
  pub telemetry_port : Bytes
  pub telemetry_data : Bytes

abbrev pub new_wrapper : DataWrapper
new_wrapper = record {
  sequence_number = 0;
  event_type = codes "gRPC";
  serialization = codes "json_string";
  timestamp = 0;
  writer_id = codes "mdt-dialout-collector";
  telemetry_node = codes "none";
  telemetry_port = codes "none";
  telemetry_data = codes "none";
}

-- BuildDataWrapper; `now` is `std::time(nullptr)`
unfoldable pub build_data_wrapper :
    ℕ → Bytes → Bytes → Bytes → Bytes → Bytes → Bytes → DataWrapper → DataWrapper
build_data_wrapper now event_type serialization writer_id telemetry_node telemetry_port
      telemetry_data w =
    record {
      sequence_number = u64 (w.sequence_number + 1);
      event_type = event_type;
      serialization = serialization;
      timestamp = now;
      writer_id = writer_id;
      telemetry_node = telemetry_node;
      telemetry_port = telemetry_port;
      telemetry_data = telemetry_data;
    }
