-- ===== src/Server/Handed/Vendors.antt =====
-- The four handlers as handlers that only deliver.
use mathlib.Core.Path.{fun_ext}
use mdt_dialout_collector.Common.{
  Option, none, some, Bool-cases, ap, Bool, true, false, not, ◌&&◌, ◌||◌, List, [], ◌∷◌, ◌++◌, ◌≡◌,
  refl, ◌∙◌, arith, if◌then◌else◌, done, bind, Partial-cases, inl, inr,
}
use mdt_dialout_collector.Common.Text.{Bytes, codes, equal, is_empty}
use mdt_dialout_collector.Json.{Jsoncpp}
use mdt_dialout_collector.Peer.{parse_peer}
use mdt_dialout_collector.Payload.Cisco.{Telemetry, cisco_gpbkv2json}
use mdt_dialout_collector.Payload.Juniper.{HeaderExtension, JuniperNotification, juniper_extension}
use mdt_dialout_collector.Payload.Juniper.Values.{
  all_shallow, juniper_json, juniper_update-none, juniper_update-juniper_json,
}
use mdt_dialout_collector.Payload.Nokia.{nokia_update}
use mdt_dialout_collector.Payload.Huawei.{huawei_gpb_openconfig_interface}
use mdt_dialout_collector.Server.{Context, World, Moment}
use mdt_dialout_collector.Server.Cisco.{CiscoRequest, no_fields, Protobuf, handle_cisco_message}
use mdt_dialout_collector.Server.Juniper.{JuniperRequest, juniper_text, handle_juniper_message}
use mdt_dialout_collector.Server.Nokia.{NokiaRequest, handle_nokia_message}
use mdt_dialout_collector.Server.Huawei.{
  HuaweiRequest, HuaweiProtobuf, handle_huawei_data, handle_huawei_json, handle_huawei_message,
}
use mdt_dialout_collector.Server.Handed.{Delivery, deliver, deliver_all, deliver_all-append, Hands}

-- A body that is handed on under the address of its peer.
abbrev pub delivery_to : Moment → Bytes → Bytes → Delivery
delivery_to moment peer body = record {
  moment = moment;
  body = body;
  peer_ip = (parse_peer peer).ip;
  peer_port = (parse_peer peer).port;
}

module _ (J : Jsoncpp) (ctx : Context) where
  deliver_one : (d : Delivery) (w : World) → deliver J ctx d w ≡ deliver_all J ctx (d ∷ []) w
  unfolding deliver_all
  deliver_one d w = elim (Partial-cases (deliver J ctx d w)) [
    | inl (w', e) ↦ rw e refl
    | inr (x, e) ↦ rw e refl
  ]

  deliver_if :
      (test : Bool) (d : Delivery) (w : World)
      → (if test then deliver J ctx d w else done w)
        ≡ deliver_all J ctx (if test then d ∷ [] else []) w
  unfolding deliver_all
  deliver_if true d w = deliver_one d w
  deliver_if false d w = refl

  -- Nokia's handler delivers each message.
  abbrev pub nokia_handed : NokiaRequest → List Delivery
  nokia_handed request =
      delivery_to request.moment request.peer (nokia_update J request.update J.null) ∷ []

  pub handle_nokia_message-deliver_all :
      (request : NokiaRequest) (w : World)
      → handle_nokia_message J ctx request w ≡ deliver_all J ctx (nokia_handed request) w
  unfolding handle_nokia_message
  handle_nokia_message-deliver_all request w =
      deliver_one (delivery_to request.moment request.peer (nokia_update J request.update J.null)) w

  abbrev pub nokia_hands : Hands J ctx NokiaRequest
  nokia_hands = record {
    handler = handle_nokia_message J ctx;
    handed = nokia_handed;
    readable = λ _. true;
    handler_lem = λ m w _. handle_nokia_message-deliver_all m w;
  }

  -- Huawei's handler delivers a message with interfaces, and then one that has JSON.
  abbrev pub huawei_data? : HuaweiProtobuf → HuaweiRequest → Bool
  huawei_data? P request =
      let (parsed, tlm) = P.parse_from_string request.stream_data in
      not (is_empty request.stream_data)
      && (tlm.has_data_gpb
          && (parsed && equal tlm.proto_path (codes "openconfig_interfaces.Interfaces")))

  abbrev pub huawei_data : HuaweiProtobuf → HuaweiRequest → Delivery
  huawei_data P request =
      delivery_to request.first request.peer
        (huawei_gpb_openconfig_interface J P.decode (P.parse_from_string request.stream_data).1).1

  abbrev pub huawei_json : HuaweiRequest → Delivery
  huawei_json request = delivery_to request.second request.peer request.data_json

  abbrev pub huawei_handed : HuaweiProtobuf → HuaweiRequest → List Delivery
  huawei_handed P request =
      (if huawei_data? P request then huawei_data P request ∷ [] else [])
      ++ (if not (is_empty request.data_json) then huawei_json request ∷ [] else [])

  handle_huawei_data_lem :
      (P : HuaweiProtobuf) (request : HuaweiRequest) (w : World)
      → handle_huawei_data J P ctx request w
        ≡ (if huawei_data? P request then deliver J ctx (huawei_data P request) w else done w)
  unfolding handle_huawei_data
  handle_huawei_data_lem P request w = ground arith

  handle_huawei_json_lem :
      (P : HuaweiProtobuf) (request : HuaweiRequest) (w : World)
      → handle_huawei_json J P ctx request w
        ≡ deliver_all J ctx
            (if not (is_empty request.data_json) then huawei_json request ∷ [] else [])
            w
  unfolding handle_huawei_json
  handle_huawei_json_lem P request w =
      let same : handle_huawei_json J P ctx request w ≡ (
          if not (is_empty request.data_json)
          then deliver J ctx (huawei_json request) w
          else done w) =
        ground arith in
      same ∙ deliver_if (not (is_empty request.data_json)) (huawei_json request) w

  pub handle_huawei_message-deliver_all :
      (P : HuaweiProtobuf) (request : HuaweiRequest) (w : World)
      → handle_huawei_message J P ctx request w ≡ deliver_all J ctx (huawei_handed P request) w
  unfolding handle_huawei_message
  handle_huawei_message-deliver_all P request w =
      rw
        (
          deliver_all-append J ctx
              (if huawei_data? P request then huawei_data P request ∷ [] else [])
              (if not (is_empty request.data_json) then huawei_json request ∷ [] else []) w,
          handle_huawei_data_lem P request w,
          deliver_if (huawei_data? P request) (huawei_data P request) w,
        )
        (ap
          (bind (
            deliver_all J ctx (if huawei_data? P request then huawei_data P request ∷ [] else [])
              w))
          (fun_ext λ w'. handle_huawei_json_lem P request w'))

  abbrev pub huawei_hands : HuaweiProtobuf → Hands J ctx HuaweiRequest
  huawei_hands P = record {
    handler = handle_huawei_message J P ctx;
    handed = huawei_handed P;
    readable = λ _. true;
    handler_lem = λ m w _. handle_huawei_message-deliver_all P m w;
  }

  -- Juniper's handler delivers each response, where no value of the update is too deep for jsoncpp's
  -- reader.
  abbrev pub juniper_readable : JuniperRequest J.Real → Bool
  juniper_readable request = elim request.update [ none ↦ true | some n ↦ all_shallow J n.update ]

  -- The text that the handler delivers.
  abbrev pub juniper_body : HeaderExtension → JuniperRequest J.Real → Bytes
  juniper_body H request =
      let (extended, root) = juniper_extension J H request.extension J.null in
      if extended then juniper_json J request.update root else []

  abbrev pub juniper_handed : HeaderExtension → JuniperRequest J.Real → List Delivery
  juniper_handed H request = delivery_to request.moment request.peer (juniper_body H request) ∷ []

  juniper_text-juniper_body :
      (H : HeaderExtension) (request : JuniperRequest J.Real)
      → juniper_readable request ≡ true
      → juniper_text J H request ≡ done (juniper_body H request)
  unfolding juniper_text
  juniper_text-juniper_body H request shallow = go request.update refl shallow
    where
      go :
          (update : Option (JuniperNotification J.Real))
          → request.update ≡ update
          → (elim update [ none ↦ true | some n ↦ all_shallow J n.update ]) ≡ true
          → juniper_text J H request ≡ done (juniper_body H request)
      go none at _ = elim (Bool-cases (juniper_extension J H request.extension J.null).0) [
        | inl on ↦
            rw (at, on, juniper_update-none J (juniper_extension J H request.extension J.null).1)
              refl
        | inr off ↦ rw (at, off) refl
      ]
      go (some n) at shallow' =
          elim (Bool-cases (juniper_extension J H request.extension J.null).0) [
            | inl on ↦
                rw
                  (
                    at,
                    on,
                    juniper_update-juniper_json J n
                        (juniper_extension J H request.extension J.null).1 shallow',
                  )
                  refl
            | inr off ↦ rw (at, off) refl
          ]

  pub handle_juniper_message-deliver_all :
      (H : HeaderExtension) (request : JuniperRequest J.Real) (w : World)
      → juniper_readable request ≡ true
      → handle_juniper_message J H ctx request w ≡ deliver_all J ctx (juniper_handed H request) w
  unfolding handle_juniper_message
  handle_juniper_message-deliver_all H request w shallow =
      rw (juniper_text-juniper_body H request shallow)
        (deliver_one (delivery_to request.moment request.peer (juniper_body H request)) w)

  abbrev pub juniper_hands : HeaderExtension → Hands J ctx (JuniperRequest J.Real)
  juniper_hands H = record {
    handler = handle_juniper_message J H ctx;
    handed = juniper_handed H;
    readable = juniper_readable;
    handler_lem = handle_juniper_message-deliver_all H;
  }

  -- Cisco's handler delivers a message that is not empty, and is no telemetry message, or one with
  -- GPB-KV fields where a conversion is enabled, or one without them that holds GPB data.
  abbrev pub is_handed_on : Protobuf (Telemetry J.Real) → CiscoRequest → Bool
  is_handed_on P request =
      let (parsed, tlm) = P.parse_from_string request.stream_data in
      not (is_empty request.stream_data)
      && (not parsed
          || (if no_fields tlm.data_gpbkv
              then tlm.has_data_gpb
              else ctx.cisco_gpbkv2json || ctx.cisco_msg_to_json))

  abbrev pub cisco_body : Protobuf (Telemetry J.Real) → CiscoRequest → Bytes
  cisco_body P request =
      let (parsed, tlm) = P.parse_from_string request.stream_data in
      if parsed && not (no_fields tlm.data_gpbkv)
      then (if ctx.cisco_gpbkv2json then cisco_gpbkv2json J tlm else P.message_to_json_string tlm)
      else request.stream_data

  abbrev pub cisco_handed : Protobuf (Telemetry J.Real) → CiscoRequest → List Delivery
  cisco_handed P request =
      if is_handed_on P request
      then delivery_to request.moment request.peer (cisco_body P request) ∷ []
      else []

  pub handle_cisco_message-deliver_all :
      (P : Protobuf (Telemetry J.Real)) (request : CiscoRequest) (w : World)
      → handle_cisco_message J P ctx request w ≡ deliver_all J ctx (cisco_handed P request) w
  unfolding handle_cisco_message
  handle_cisco_message-deliver_all P request w =
      let d = delivery_to request.moment request.peer (cisco_body P request) in
      let same : handle_cisco_message J P ctx request w
          ≡ (if is_handed_on P request then deliver J ctx d w else done w) =
        ground arith in
      same ∙ deliver_if (is_handed_on P request) d w

  abbrev pub cisco_hands : Protobuf (Telemetry J.Real) → Hands J ctx CiscoRequest
  cisco_hands P = record {
    handler = handle_cisco_message J P ctx;
    handed = cisco_handed P;
    readable = λ _. true;
    handler_lem = λ m w _. handle_cisco_message-deliver_all P m w;
  }
