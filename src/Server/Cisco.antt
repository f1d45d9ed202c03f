-- ===== src/Server/Cisco.antt =====
-- CiscoStream: the handler of its messages, and the state machine over that handler.
pub mod Sequence
use mdt_dialout_collector.Common.{Bool, true, false, not, ◌&&◌, if◌then◌else◌, Partial, done}
use mdt_dialout_collector.Common.Text.{Bytes, is_empty}
use mdt_dialout_collector.Json.{Jsoncpp}
use mdt_dialout_collector.Peer.{parse_peer}
use mdt_dialout_collector.Payload.Cisco.{Telemetry, TelemetryFields, end, more, cisco_gpbkv2json}
use mdt_dialout_collector.Fsm.{Stream, Completion, Turn, proceed}
use mdt_dialout_collector.Server.{Context, World, Moment, deliver_payload}

-- A message with the peer that `server_ctx_.peer()` gives.
pub record CiscoRequest : Type 0 where
  pub peer : Bytes
  pub stream_data : Bytes
  pub moment : Moment

abbrev pub no_fields : {R : Type 0} → TelemetryFields R → Bool
no_fields end = true
no_fields (more _ _) = false

-- What protobuf does: `ParseFromString`, which fills the message also where it fails, and
-- `MessageToJsonString`.
pub record Protobuf (T : Type 0) : Type 0 where
  pub parse_from_string : Bytes → Bool × T
  pub message_to_json_string : T → Bytes

module _ (J : Jsoncpp) (P : Protobuf (Telemetry J.Real)) (ctx : Context) where
  -- CiscoStream::HandleMessage
  unfoldable pub handle_cisco_message : CiscoRequest → World → Partial World
  handle_cisco_message request w =
      let peer = parse_peer request.peer in
      let (parsing_str, tlm) = P.parse_from_string request.stream_data in
      let deliver =
        λ (body : Bytes). deliver_payload J ctx request.moment body peer.ip peer.port w in
      if is_empty request.stream_data
      then done w
      else if not (no_fields tlm.data_gpbkv) && parsing_str
      then (if ctx.cisco_gpbkv2json
          then deliver (cisco_gpbkv2json J tlm)
          else if ctx.cisco_msg_to_json
          then deliver (P.message_to_json_string tlm)
          else done w)
      else if tlm.has_data_gpb && parsing_str
      then deliver request.stream_data
      else if not parsing_str
      then deliver request.stream_data
      else done w

  -- CiscoStream::Proceed
  unfoldable pub cisco_proceed : Completion CiscoRequest → Stream → World → Partial (Turn World)
  cisco_proceed = proceed handle_cisco_message ctx.max_replies
