-- ===== src/Server/Nokia.antt =====
-- NokiaStream: the handler of its messages, and the state machine over that handler.
use mdt_dialout_collector.Common.{Option, Partial}
use mdt_dialout_collector.Common.Text.{Bytes}
use mdt_dialout_collector.Json.{Jsoncpp}
use mdt_dialout_collector.Peer.{parse_peer}
use mdt_dialout_collector.Payload.Nokia.{Notification, nokia_update}
use mdt_dialout_collector.Fsm.{Stream, Completion, Turn, proceed}
use mdt_dialout_collector.Server.{Context, World, Moment, deliver_payload}

-- A SubscribeResponse, with the peer that `server_ctx_.peer()` gives.
pub record NokiaRequest : Type 0 where
  pub peer : Bytes
  pub update : Option Notification
  pub moment : Moment

module _ (J : Jsoncpp) (ctx : Context) where
  -- NokiaStream::HandleMessage
  unfoldable pub handle_nokia_message : NokiaRequest → World → Partial World
  handle_nokia_message request w =
      let peer = parse_peer request.peer in
      deliver_payload J ctx request.moment (nokia_update J request.update J.null) peer.ip peer.port
        w

  -- NokiaStream::Proceed
  unfoldable pub nokia_proceed : Completion NokiaRequest → Stream → World → Partial (Turn World)
  nokia_proceed = proceed handle_nokia_message ctx.max_replies
