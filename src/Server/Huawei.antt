-- ===== src/Server/Huawei.antt =====
-- HuaweiStream: the handler of its messages, and the state machine over that handler.
use mdt_dialout_collector.Common.{Bool, ◌&&◌, Option, Partial, done, bind, if◌then◌else◌}
use mdt_dialout_collector.Common.Text.{Bytes, codes, equal, is_empty}
use mdt_dialout_collector.Json.{Jsoncpp}
use mdt_dialout_collector.Peer.{parse_peer}
use mdt_dialout_collector.Payload.Huawei.{HuaweiTelemetry, huawei_gpb_openconfig_interface}
use mdt_dialout_collector.Fsm.{Stream, Completion, Turn, proceed}
use mdt_dialout_collector.Server.{Context, World, Moment, deliver_payload}

-- A serviceArgs, with the peer that `server_ctx_.peer()` gives; it may be delivered twice.
pub record HuaweiRequest : Type 0 where
  pub peer : Bytes
  pub stream_data : Bytes
  pub data_json : Bytes
  pub first : Moment
  pub second : Moment

-- What protobuf does: `ParseFromString` of a message, which fills it also where it fails, and what
-- it makes of the content of a row.
pub record HuaweiProtobuf : Type 0 where
  pub parse_from_string : Bytes → Bool × HuaweiTelemetry
  pub decode : Bytes → Option Bytes

module _ (J : Jsoncpp) (P : HuaweiProtobuf) (ctx : Context) where
  -- the first half, about `data()`
  unfoldable pub handle_huawei_data : HuaweiRequest → World → Partial World
  handle_huawei_data request w =
      let peer = parse_peer request.peer in
      let (parsing_str, tlm) = P.parse_from_string request.stream_data in
      if is_empty request.stream_data
      then done w
      else if tlm.has_data_gpb
          && parsing_str
          && equal tlm.proto_path (codes "openconfig_interfaces.Interfaces")
      then deliver_payload J ctx request.first (huawei_gpb_openconfig_interface J P.decode tlm).1
          peer.ip peer.port w
      else done w

  -- the second half, about `data_json()`
  unfoldable pub handle_huawei_json : HuaweiRequest → World → Partial World
  handle_huawei_json request w =
      let peer = parse_peer request.peer in
      if is_empty request.data_json
      then done w
      else deliver_payload J ctx request.second request.data_json peer.ip peer.port w

  -- HuaweiStream::HandleMessage
  unfoldable pub handle_huawei_message : HuaweiRequest → World → Partial World
  unfolding handle_huawei_data handle_huawei_json
  handle_huawei_message request w = bind (handle_huawei_data request w) (handle_huawei_json request)

  -- HuaweiStream::Proceed
  unfoldable pub huawei_proceed : Completion HuaweiRequest → Stream → World → Partial (Turn World)
  huawei_proceed = proceed handle_huawei_message ctx.max_replies
