-- ===== src/Server/Plumbing/Total.antt =====
-- The contexts of the vendors, for a configuration that the handlers accepted.
use text.Mathlib.Text.{◌==◌}
use mdt_dialout_collector.Common.{
  String, Bool, true, false, ◌||◌, ◌&&◌, some, Partial, done, bind, ◌≡◌, refl, [], ◌∷◌, arith,
  if◌then◌else◌, Bool-cases, inl, inr,
}
use mdt_dialout_collector.Common.Number.{ℤ, stoi}
use mdt_dialout_collector.Common.Text.{codes}
use mdt_dialout_collector.Config.Params.{Params, find, value_at}
use mdt_dialout_collector.Config.Load.{
  Setting, absent, other, string, Config, Machine, admits, effective, is_allowed,
}
use mdt_dialout_collector.Config.Logs.Accepts.{logs_valid}
use mdt_dialout_collector.Config.Main.{
  VendorKeys, cisco_keys, juniper_keys, nokia_keys, huawei_keys,
}
use mdt_dialout_collector.Config.Main.Vendors.{VendorReads}
use mdt_dialout_collector.Config.Main.Workers.{socket_value, sockets_valid, all_workers_valid}
use mdt_dialout_collector.Config.Main.Accepts.{main_valid, main_params, writer_valid, tls_valid}
use mdt_dialout_collector.Config.Main.Reads.{main_params-MainReads}
use mdt_dialout_collector.Config.DataManipulation.Accepts.{manipulation_params, csv_on, ptm_on}
use mdt_dialout_collector.Config.Kafka.Accepts.{kafka_params, protocol}
use mdt_dialout_collector.Delivery.Kafka.{KafkaDelivery, kafka_delivery}
use mdt_dialout_collector.Server.{DeliveryMethod, to_kafka, to_zmq, Context}
use mdt_dialout_collector.Server.Plumbing.{
  Plumbing, delivery_of, flag, either_flag, vendor_plumbing, context_of, replies_of, cisco_fsm_ctrl,
  juniper_fsm_ctrl, nokia_fsm_ctrl, huawei_fsm_ctrl,
}
use mdt_dialout_collector.Startup.Options.{method, options_valid, options_of}

-- The settings of the producer for a file.
abbrev pub settings_of : Config → KafkaDelivery
settings_of cfg =
    let with_ssl = λ (on off : String). if protocol cfg == "ssl" then on else off in
    record {
      topic = effective cfg "topic" "dummy_topic";
      bootstrap_servers = effective cfg "bootstrap_servers" "dummy_servers";
      enable_idempotence = effective cfg "enable_idempotence" "true";
      client_id = effective cfg "client_id" "mdt-dialout-collector";
      security_protocol = protocol cfg;
      ssl_key_location = with_ssl (effective cfg "ssl_key_location" "") "NULL";
      ssl_key_password = with_ssl (effective cfg "ssl_key_password" "NULL") "NULL";
      ssl_certificate_location = with_ssl (effective cfg "ssl_certificate_location" "") "NULL";
      ssl_ca_location = with_ssl (effective cfg "ssl_ca_location" "") "NULL";
      enable_ssl_certificate_verification =
          with_ssl (effective cfg "enable_ssl_certificate_verification" "true") "false";
      log_level = effective cfg "log_level" "6";
    }

-- On the map that the handler fills for a file, KafkaDelivery finds every key, so that it does not
-- throw, and it holds the file's settings or their defaults: without SSL the four locations and the
-- password are the text NULL and verification is off.
pub kafka_delivery-kafka_params :
    (cfg : Config) → kafka_delivery (kafka_params cfg) ≡ done (settings_of cfg)
unfolding kafka_delivery find
kafka_delivery-kafka_params cfg = elim (Bool-cases (protocol cfg == "ssl")) [
  | inl e ↦ rw e refl
  | inr e ↦ rw e refl
]

value_at_of_find :
    (m : Params) (key : String) {v : String} → find key m ≡ some v → value_at m key ≡ done v
unfolding value_at
value_at_of_find m key h = rw h refl

pub last_of : (a b : Bool) → (a && b) ≡ true → b ≡ true
last_of a b h = ground arith

pub first_of : (a b : Bool) → (a && b) ≡ true → a ≡ true
first_of a b h = ground arith

module _ (cfg : Config) where
  label_flags :
      either_flag
        (flag (manipulation_params cfg) "enable_label_encode_as_map")
        (flag (manipulation_params cfg) "enable_label_encode_as_map_ptm")
      ≡ done (csv_on cfg || ptm_on cfg)
  unfolding value_at find
  label_flags = ground arith

  cisco_flags :
      (flag (manipulation_params cfg) "enable_cisco_gpbkv2json"
        ≡ done (effective cfg "enable_cisco_gpbkv2json" "true" == "true"))
      × (flag (manipulation_params cfg) "enable_cisco_message_to_json_string"
          ≡ done (effective cfg "enable_cisco_message_to_json_string" "false" == "true"))
  unfolding value_at find
  cisco_flags = (ground arith, ground arith)

  abbrev pub plumbing_of : DeliveryMethod → String → Plumbing
  plumbing_of delivery uri = record {
    kafka = settings_of cfg;
    zmq_uri = uri;
    delivery = delivery;
    label_encode = csv_on cfg || ptm_on cfg;
    writer_id = codes (effective cfg "writer_id" "mdt-dialout-collector");
  }

  abbrev pub address : String → String
  address uri =
      if method cfg == "zmq"
      then (if uri == "" then "ipc:///tmp/grpc.sock" else uri)
      else "ipc:///tmp/dummy.sock"

  zmq_address : (uri : String) → value_at (options_of uri cfg).zmq "zmq_uri" ≡ done (address uri)
  unfolding value_at find
  zmq_address uri = refl

  vendor_plumbing_lem :
      (uri : String) (delivery : DeliveryMethod)
      → delivery_of (method cfg) ≡ done delivery
      → vendor_plumbing (options_of uri cfg) ≡ done (plumbing_of delivery (address uri))
  unfolding vendor_plumbing
  vendor_plumbing_lem uri delivery h =
      let r = main_params-MainReads cfg in
      rw
        (
          kafka_delivery-kafka_params cfg,
          zmq_address uri,
          value_at_of_find (main_params cfg) "writer_id" r.writer_id,
          value_at_of_find (main_params cfg) "data_delivery_method" r.delivery,
          h,
          label_flags,
        )
        refl

  method_allowed :
      (setting : Setting)
      → cfg "data_delivery_method" ≡ setting
      → admits (λ v. is_allowed v ("kafka" ∷ "zmq" ∷ [])) cfg "data_delivery_method" ≡ true
      → (delivery : DeliveryMethod) × (delivery_of (method cfg) ≡ done delivery)
  unfolding is_allowed admits effective
  method_allowed absent e h =
      let m : method cfg ≡ "kafka" = rw (e, effective) refl in (to_kafka, rw m refl)
  method_allowed other e h = absurd (ground arith)
  method_allowed (string v) e h =
      let m : method cfg ≡ v = rw (e, effective) refl in
      elim (Bool-cases (v == "kafka")) [
        | inl k ↦ (to_kafka, rw (m, k) refl)
        | inr k ↦ elim (Bool-cases (v == "zmq")) [
          | inl z ↦ (to_zmq, rw (m, k, z) refl)
          | inr z ↦ absurd (ground arith)
        ]
      ]

  pub plumbing_made :
      (machine : Machine) (uri : String)
      → options_valid machine cfg ≡ true
      → (delivery : DeliveryMethod) × (delivery_of (method cfg) ≡ done delivery)
        × (vendor_plumbing (options_of uri cfg) ≡ done (plumbing_of delivery (address uri)))
  plumbing_made machine uri valid =
      let allowed =
        last_of
          (writer_valid machine cfg
            && tls_valid machine cfg
            && sockets_valid cfg
            && all_workers_valid cfg)
          (admits (λ v. is_allowed v ("kafka" ∷ "zmq" ∷ [])) cfg "data_delivery_method")
          (first_of (main_valid machine cfg) _ (last_of (logs_valid cfg) _ valid)) in
      let (delivery, chosen) = method_allowed (cfg "data_delivery_method") refl allowed in
      (delivery, chosen, vendor_plumbing_lem uri delivery chosen)

  -- The amount of replies of a vendor with a socket, where it is a number.
  pub replies_read :
      (uri : String) (v : VendorKeys) {replies : ℤ}
      → VendorReads cfg v (main_params cfg)
      → (socket_value cfg v == "") ≡ false
      → stoi (codes (effective cfg v.replies "0")) ≡ done replies
      → replies_of (options_of uri cfg) v.replies ≡ done replies
  replies_read uri v r has_socket number =
      let amount : value_at (main_params cfg) v.replies ≡ done (effective cfg v.replies "0") =
        value_at_of_find (main_params cfg) v.replies (ground (arith, r.replies)) in
      rw (amount, number) refl

  -- The context of a vendor's streams: the delivery is that of the file, the streams are limited to
  -- this amount, and labels are added if one of the two label maps is enabled.
  abbrev pub ContextFor : ℤ → Partial Context → Type 0
  ContextFor replies result =
      (ctx : Context) × (result ≡ done ctx)
      × (delivery_of (method cfg) ≡ done ctx.delivery)
      × (ctx.max_replies ≡ replies)
      × (ctx.label_encode ≡ csv_on cfg || ptm_on cfg)

  -- For a file that the handlers accept and that gives Cisco a socket, where the amount of replies
  -- is a number, CiscoFsmCtrl makes its context without an exception: the delivery is that of the
  -- file, the streams are limited to that amount, and labels are added if one of the two label maps
  -- is enabled.
  pub cisco_fsm_ctrl_total :
      (machine : Machine) (uri : String) {replies : ℤ}
      → options_valid machine cfg ≡ true
      → (socket_value cfg cisco_keys == "") ≡ false
      → stoi (codes (effective cfg "replies_cisco" "0")) ≡ done replies
      → (ctx : Context) × (cisco_fsm_ctrl (options_of uri cfg) ≡ done ctx)
        × (delivery_of (method cfg) ≡ done ctx.delivery)
        × (ctx.max_replies ≡ replies)
        × (ctx.label_encode ≡ csv_on cfg || ptm_on cfg)
  unfolding cisco_fsm_ctrl
  cisco_fsm_ctrl_total machine uri {replies} valid has_socket number =
      let (delivery, chosen, plumbing) = plumbing_made machine uri valid in
      let (gpbkv2json, to_json) = cisco_flags in
      let amount =
        replies_read uri cisco_keys (main_params-MainReads cfg).cisco has_socket number in
      (
        context_of (plumbing_of delivery (address uri)) replies
            (effective cfg "enable_cisco_gpbkv2json" "true" == "true")
            (effective cfg "enable_cisco_message_to_json_string" "false" == "true"),
        rw (plumbing, amount, gpbkv2json, to_json) refl,
        chosen,
        refl,
        refl,
      )

  -- The three vendors without flags.
  plain_context :
      (machine : Machine) (uri : String) (v : VendorKeys) {replies : ℤ}
      → options_valid machine cfg ≡ true
      → VendorReads cfg v (main_params cfg)
      → (socket_value cfg v == "") ≡ false
      → stoi (codes (effective cfg v.replies "0")) ≡ done replies
      → ContextFor replies (
          bind (vendor_plumbing (options_of uri cfg)) λ pl.
            bind
              (replies_of (options_of uri cfg) v.replies)
              λ max_replies. done (context_of pl max_replies false false))
  plain_context machine uri v {replies} valid r has_socket number =
      let (delivery, chosen, plumbing) = plumbing_made machine uri valid in
      (
        context_of (plumbing_of delivery (address uri)) replies false false,
        rw (plumbing, replies_read uri v r has_socket number) refl,
        chosen,
        refl,
        refl,
      )

  module _ (machine : Machine) (uri : String) {replies : ℤ}
      (valid : options_valid machine cfg ≡ true) where
    pub juniper_fsm_ctrl_total :
        (socket_value cfg juniper_keys == "") ≡ false
        → stoi (codes (effective cfg "replies_juniper" "0")) ≡ done replies
        → ContextFor replies (juniper_fsm_ctrl (options_of uri cfg))
    unfolding juniper_fsm_ctrl
    juniper_fsm_ctrl_total has_socket number =
        plain_context machine uri juniper_keys valid (main_params-MainReads cfg).juniper has_socket
          number

    pub nokia_fsm_ctrl_total :
        (socket_value cfg nokia_keys == "") ≡ false
        → stoi (codes (effective cfg "replies_nokia" "0")) ≡ done replies
        → ContextFor replies (nokia_fsm_ctrl (options_of uri cfg))
    unfolding nokia_fsm_ctrl
    nokia_fsm_ctrl_total has_socket number =
        plain_context machine uri nokia_keys valid (main_params-MainReads cfg).nokia has_socket
          number

    pub huawei_fsm_ctrl_total :
        (socket_value cfg huawei_keys == "") ≡ false
        → stoi (codes (effective cfg "replies_huawei" "0")) ≡ done replies
        → ContextFor replies (huawei_fsm_ctrl (options_of uri cfg))
    unfolding huawei_fsm_ctrl
    huawei_fsm_ctrl_total has_socket number =
        plain_context machine uri huawei_keys valid (main_params-MainReads cfg).huawei has_socket
          number
