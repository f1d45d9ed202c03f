-- ===== src/Server.antt =====
-- src/core/mdt_dialout_core.cc: what a handler does with a message of its vendor. The state machine
-- that calls the handler is in Fsm.
pub mod Delivered
pub mod Handed
pub mod Cisco
pub mod Juniper
pub mod Nokia
pub mod Huawei
pub mod Registry
pub mod Bind
pub mod Mutator
pub mod Workers
pub mod Plumbing
pub mod FsmCtrl
use mdt_dialout_collector.Common.{ℕ, Bool, none, some, List, if◌then◌else◌, Partial, done, bind}
use mdt_dialout_collector.Common.Number.{ℤ}
use mdt_dialout_collector.Common.Text.{Bytes, codes}
use mdt_dialout_collector.Json.{Jsoncpp}
use mdt_dialout_collector.Labels.{LabelMap}
use mdt_dialout_collector.Payload.Envelope.{build_envelope}
use mdt_dialout_collector.Delivery.Wrapper.{DataWrapper, build_data_wrapper}
use mdt_dialout_collector.Delivery.Kafka.{KafkaDelivery, ProducerRecord, async_kafka_producer}
use mdt_dialout_collector.Delivery.Zmq.{Zmq, SendOutcome, zmq_pusher}

-- `enum class DeliveryMethod`
pub data DeliveryMethod : Type 0 where
  to_kafka to_zmq : DeliveryMethod

-- the constant part of a vendor's `Context`
pub record Context : Type 0 where
  pub delivery : DeliveryMethod
  pub kafka : KafkaDelivery
  pub max_replies : ℤ
  pub writer_id : Bytes
  pub label_encode : Bool
  pub cisco_gpbkv2json : Bool
  pub cisco_msg_to_json : Bool

-- What a `Context` points at: the label map, the envelope's sequence number in DataManipulation,
-- the DataWrapper, the records that the Kafka producer has taken, and the ZMQ payloads.
pub record World : Type 0 where
  pub label_map : LabelMap
  pub sequence_number : ℕ
  pub data_wrapper : DataWrapper
  pub records : List ProducerRecord
  pub zmq : Zmq

-- What the surroundings decide while a payload is delivered.
pub record Moment : Type 0 where
  pub now : ℕ
  pub accepts : Bool
  pub memory : Bool
  pub outcome : SendOutcome

module _ (J : Jsoncpp) (ctx : Context) where
  unfoldable pub to_producer : Moment → Bytes → Bytes → Bytes → World → Partial World
  to_producer m body peer_ip peer_port w =
      bind
        (build_envelope J body peer_ip peer_port
          (if ctx.label_encode then some w.label_map else none) ctx.writer_id m.now
          w.sequence_number)
        λ (envelope, seq). done (record w {
          sequence_number = seq;
          records = (async_kafka_producer ctx.kafka m.accepts peer_ip envelope w.records).1;
        })

  unfoldable pub to_pusher : Moment → Bytes → Bytes → Bytes → World → Partial World
  to_pusher m body peer_ip peer_port w =
      let wrapper =
        build_data_wrapper m.now (codes "gRPC") (codes "json_string") ctx.writer_id peer_ip
          peer_port body w.data_wrapper in
      bind (zmq_pusher m.memory m.outcome wrapper w.zmq)
        λ (_, z). done (record w { data_wrapper = wrapper; zmq = z })

  -- deliver_payload
  unfoldable pub deliver_payload : Moment → Bytes → Bytes → Bytes → World → Partial World
  unfolding to_producer to_pusher
  deliver_payload m body peer_ip peer_port w = elim ctx.delivery [
    | to_kafka ↦ to_producer m body peer_ip peer_port w
    | to_zmq ↦ to_pusher m body peer_ip peer_port w
  ]
