-- ===== src/Tests/Delivering.antt =====
-- Payloads and their delivery at concrete inputs.
use mathlib.Core.List.{Perm}
use mdt_dialout_collector.Common.{
  ℕ, true, false, none, some, Option, thrown, use_after_free, List, [], ◌∷◌, ◌++◌, ◌≡◌, refl, done,
  if◌then◌else◌,
}
use mdt_dialout_collector.Common.Number.{pos, stoi}
use mdt_dialout_collector.Common.Text.{Bytes, codes, is_empty, equal}
use mdt_dialout_collector.Json.Tree.{tree_json, tree_json-IsLawful}
use mdt_dialout_collector.Labels.{LabelMap, find_label}
use mdt_dialout_collector.Payload.Envelope.{build_envelope, label_value}
use mdt_dialout_collector.Payload.Envelope.Members.{Envelope, build_envelope-Envelope}
use mdt_dialout_collector.Payload.Cisco.{end, Telemetry}
use mdt_dialout_collector.Delivery.Wrapper.{DataWrapper, new_wrapper}
use mdt_dialout_collector.Delivery.Kafka.{KafkaDelivery, async_kafka_producer}
use mdt_dialout_collector.Delivery.Zmq.{GrpcPayload, Zmq, payload_of, sent, not_ready}
use mdt_dialout_collector.Delivery.Zmq.Queue.{Carries}
use mdt_dialout_collector.Delivery.Zmq.Trace.{
  Action, push, overtake, poll, run_actions, no_payloads, run_actions-taken,
}
use mdt_dialout_collector.Delivery.Zmq.Client.{run_client, run_client-Carries}
use mdt_dialout_collector.Peer.{parse_peer}
use mdt_dialout_collector.Fsm.Serve.{handle_all}
use mdt_dialout_collector.Server.{to_kafka, Context, World, Moment, deliver_payload}
use mdt_dialout_collector.Server.Delivered.{labels_for, deliver_payload-Envelope}
use mdt_dialout_collector.Server.Cisco.{CiscoRequest, Protobuf, handle_cisco_message}

abbrev labels : LabelMap
labels = (codes "192.0.2.7", codes "n1" ∷ codes "p1" ∷ []) ∷ []

abbrev enveloped : Bytes × ℕ
enveloped = (codes "{}", 8)

envelope_made :
    build_envelope tree_json
      (codes "x")
      (codes "192.0.2.7")
      (codes "57400")
      (some labels)
      (codes "w")
      1700000000
      7
    ≡ done enveloped
unfolding build_envelope stoi label_value find_label equal
envelope_made = refl

build_envelope-Envelope_example :
    Envelope tree_json
      (codes "x")
      (codes "192.0.2.7")
      (codes "57400")
      (some labels)
      (codes "w")
      1700000000
      7
      enveloped
build_envelope-Envelope_example =
    build_envelope-Envelope tree_json tree_json-IsLawful (codes "x") (codes "192.0.2.7")
      (codes "57400") (some labels) (codes "w") 1700000000 7 envelope_made

abbrev kafka : KafkaDelivery
kafka = record {
  topic = "mdt";
  bootstrap_servers = "b";
  enable_idempotence = "true";
  client_id = "c";
  security_protocol = "plaintext";
  ssl_key_location = "NULL";
  ssl_key_password = "NULL";
  ssl_certificate_location = "NULL";
  ssl_ca_location = "NULL";
  enable_ssl_certificate_verification = "false";
  log_level = "6";
}

abbrev pub context : Context
context = record {
  delivery = to_kafka;
  kafka = kafka;
  max_replies = pos 0;
  writer_id = codes "w";
  label_encode = true;
  cisco_gpbkv2json = true;
  cisco_msg_to_json = false;
}

abbrev pub moment : Moment
moment = record { now = 1700000000; accepts = true; memory = true; outcome = sent }

abbrev pub world : World
world = record {
  label_map = labels;
  sequence_number = 7;
  data_wrapper = new_wrapper;
  records = [];
  zmq = no_payloads;
}

abbrev published : World
published = record world {
  sequence_number = 8;
  records = record { topic = "mdt"; key = codes "192.0.2.7"; value = codes "{}" } ∷ [];
}

delivered :
    deliver_payload tree_json context moment (codes "x") (codes "192.0.2.7") (codes "57400") world
    ≡ done published
unfolding deliver_payload build_envelope stoi label_value find_label equal async_kafka_producer
delivered = refl

deliver_payload-Envelope_example :
    (out : Bytes) × Envelope tree_json
      (codes "x")
      (codes "192.0.2.7")
      (codes "57400")
      (labels_for context world)
      (codes "w")
      1700000000
      7
      (out, 8)
    × (published.records ≡ (
        if is_empty out
        then []
        else if true
        then [] ++ (record { topic = "mdt"; key = codes "192.0.2.7"; value = out } ∷ [])
        else []))
    × (published.label_map ≡ labels)
    × (published.data_wrapper ≡ new_wrapper)
    × (published.zmq ≡ no_payloads)
deliver_payload-Envelope_example =
    deliver_payload-Envelope tree_json tree_json-IsLawful context moment (codes "x")
      (codes "192.0.2.7") (codes "57400") world published refl delivered

abbrev no_telemetry : Telemetry ℕ
no_telemetry = record {
  node_id_str = none;
  subscription_id_str = none;
  encoding_path = [];
  collection_id = 0;
  collection_start_time = 0;
  msg_timestamp = 0;
  collection_end_time = 0;
  data_gpbkv = end;
  has_data_gpb = false;
}

-- A protobuf that knows no telemetry message: all data are JSON.
abbrev no_protobuf : Protobuf (Telemetry ℕ)
no_protobuf = record {
  parse_from_string = λ _. (false, no_telemetry);
  message_to_json_string = λ _. [];
}

abbrev request : Bytes → CiscoRequest
request stream_data = record {
  peer = codes "ipv4:192.0.2.7:57400";
  stream_data = stream_data;
  moment = moment;
}

abbrev requests : List CiscoRequest
requests = request (codes "x") ∷ request [] ∷ []

handled :
    handle_all (handle_cisco_message tree_json no_protobuf context) requests world ≡ done published
unfolding handle_all handle_cisco_message deliver_payload build_envelope stoi parse_peer label_value
    find_label equal async_kafka_producer
handled = refl

abbrev one_payload : Zmq
one_payload = record { heap = some (payload_of new_wrapper) ∷ []; queue = 0 ∷ []; printed = [] }

one_payload-Carries : Carries one_payload (payload_of new_wrapper ∷ [])
one_payload-Carries = record { holds = (refl, tt); distinct = (tt, tt); no_leak = refl }

abbrev other_wrapper : DataWrapper
other_wrapper = record new_wrapper { writer_id = codes "w2" }

-- Two threads push, and the pointer of the second comes first.
abbrev two_threads : List Action
two_threads =
    push sent new_wrapper
    ∷ push not_ready new_wrapper
    ∷ push sent other_wrapper
    ∷ overtake 0
    ∷ poll
    ∷ []

run_actions-taken_example :
    (z : Zmq) × (ps : List GrpcPayload) × (run_actions two_threads no_payloads ≡ done z)
    × Carries z ps
    × Perm (z.printed ++ ps) (payload_of new_wrapper ∷ payload_of other_wrapper ∷ [])
run_actions-taken_example = run_actions-taken two_threads

run_client-Carries_example :
    ((z' : Zmq) × (last : Option ℕ) × (run_client (true ∷ []) none one_payload ≡ done (last, z'))
      × Carries z' []
      × (z'.printed ≡ [] ++ (payload_of new_wrapper ∷ [])))
    × (run_client (true ∷ false ∷ []) none one_payload ≡ thrown use_after_free)
run_client-Carries_example =
    run_client-Carries one_payload (payload_of new_wrapper ∷ []) [] one_payload-Carries
