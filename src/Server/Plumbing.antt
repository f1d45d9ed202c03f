-- ===== src/Server/Plumbing.antt =====
-- VendorPlumbing and the four FsmCtrl functions: the context of a vendor's streams.
pub mod Total
use text.Mathlib.Text.{◌==◌}
use mdt_dialout_collector.Common.{
  String, Bool, true, false, Partial, done, thrown, bind, exit_failure, if◌then◌else◌,
}
use mdt_dialout_collector.Common.Number.{ℤ, stoi}
use mdt_dialout_collector.Common.Text.{Bytes, codes}
use mdt_dialout_collector.Config.Params.{Params, value_at}
use mdt_dialout_collector.Delivery.Kafka.{KafkaDelivery, kafka_delivery}
use mdt_dialout_collector.Server.{DeliveryMethod, to_kafka, to_zmq, Context}
use mdt_dialout_collector.Startup.{Globals}

-- `struct VendorPlumbing`, as far as it is not shared by all vendors
pub record Plumbing : Type 0 where
  pub kafka : KafkaDelivery
  pub zmq_uri : String
  pub delivery : DeliveryMethod
  pub label_encode : Bool
  pub writer_id : Bytes

-- the choice by `data_delivery_method`; the constructor aborts for any other text
abbrev pub delivery_of : String → Partial DeliveryMethod
delivery_of ddm =
    if ddm == "kafka"
    then done to_kafka
    else if ddm == "zmq"
    then done to_zmq
    else thrown exit_failure

-- `m.at(key) == "true"`
abbrev pub flag : Params → String → Partial Bool
flag m key = bind (value_at m key) λ v. done (v == "true")

-- `a || b`, whose right side is not read where the left is true
abbrev pub either_flag : Partial Bool → Partial Bool → Partial Bool
either_flag left right = bind left λ a. if a then done true else right

-- VendorPlumbing::VendorPlumbing
unfoldable pub vendor_plumbing : Globals → Partial Plumbing
vendor_plumbing g = bind (kafka_delivery g.kafka) λ kafka.
    bind (value_at g.zmq "zmq_uri") λ zmq_uri. bind (value_at g.main "writer_id") λ writer_id.
      bind (bind (value_at g.main "data_delivery_method") delivery_of) λ delivery.
        bind
          (either_flag (flag g.data_manipulation "enable_label_encode_as_map")
            (flag g.data_manipulation "enable_label_encode_as_map_ptm"))
          λ label_encode. done (record {
            kafka = kafka;
            zmq_uri = zmq_uri;
            delivery = delivery;
            label_encode = label_encode;
            writer_id = codes writer_id;
          })

-- the context that an FsmCtrl function makes of the plumbing
abbrev pub context_of : Plumbing → ℤ → Bool → Bool → Context
context_of pl max_replies gpbkv2json to_json = record {
  delivery = pl.delivery;
  kafka = pl.kafka;
  max_replies = max_replies;
  writer_id = pl.writer_id;
  label_encode = pl.label_encode;
  cisco_gpbkv2json = gpbkv2json;
  cisco_msg_to_json = to_json;
}

-- `std::stoi(main_cfg_parameters.at(replies))`
abbrev pub replies_of : Globals → String → Partial ℤ
replies_of g replies = bind (value_at g.main replies) λ text. stoi (codes text)

-- CiscoFsmCtrl, up to RunFsm
unfoldable pub cisco_fsm_ctrl : Globals → Partial Context
unfolding vendor_plumbing
cisco_fsm_ctrl g = bind (vendor_plumbing g) λ pl. bind (replies_of g "replies_cisco") λ max_replies.
    bind (flag g.data_manipulation "enable_cisco_gpbkv2json") λ gpbkv2json.
      bind (flag g.data_manipulation "enable_cisco_message_to_json_string")
        λ to_json. done (context_of pl max_replies gpbkv2json to_json)

-- JuniperFsmCtrl, up to RunFsm; its context has no flags of Cisco's
unfoldable pub juniper_fsm_ctrl : Globals → Partial Context
unfolding vendor_plumbing
juniper_fsm_ctrl g = bind (vendor_plumbing g) λ pl.
    bind (replies_of g "replies_juniper")
      λ max_replies. done (context_of pl max_replies false false)

-- NokiaFsmCtrl, up to RunFsm
unfoldable pub nokia_fsm_ctrl : Globals → Partial Context
unfolding vendor_plumbing
nokia_fsm_ctrl g = bind (vendor_plumbing g) λ pl.
    bind (replies_of g "replies_nokia") λ max_replies. done (context_of pl max_replies false false)

-- HuaweiFsmCtrl, up to RunFsm
unfoldable pub huawei_fsm_ctrl : Globals → Partial Context
unfolding vendor_plumbing
huawei_fsm_ctrl g = bind (vendor_plumbing g) λ pl.
    bind (replies_of g "replies_huawei") λ max_replies. done (context_of pl max_replies false false)
