-- ===== src/Server/Juniper.antt =====
-- JuniperStream: the handler of its messages, and the state machine over that handler.
pub mod Text
use mdt_dialout_collector.Common.{Option, List, [], if◌then◌else◌, Partial, done, bind}
use mdt_dialout_collector.Common.Text.{Bytes}
use mdt_dialout_collector.Json.{Jsoncpp}
use mdt_dialout_collector.Peer.{parse_peer}
use mdt_dialout_collector.Payload.Juniper.{
  JuniperNotification, Extension, HeaderExtension, juniper_extension, juniper_update,
}
use mdt_dialout_collector.Fsm.{Stream, Completion, Turn, proceed}
use mdt_dialout_collector.Server.{Context, World, Moment, deliver_payload}

-- A SubscribeResponse, with the peer that `server_ctx_.peer()` gives.
pub record JuniperRequest (Real : Type 0) : Type 0 where
  pub peer : Bytes
  pub extension : List Extension
  pub update : Option (JuniperNotification Real)
  pub moment : Moment

module _ (J : Jsoncpp) (H : HeaderExtension) where
  -- `json_str_out`, which stays empty where the extension is refused; what
  -- JuniperUpdate throws is not caught
  unfoldable pub juniper_text : JuniperRequest J.Real → Partial Bytes
  juniper_text request =
      let (extended, root) = juniper_extension J H request.extension J.null in
      if extended then juniper_update J request.update root else done []

module _ (J : Jsoncpp) (H : HeaderExtension) (ctx : Context) where
  -- JuniperStream::HandleMessage, which delivers either way
  unfoldable pub handle_juniper_message : JuniperRequest J.Real → World → Partial World
  unfolding juniper_text
  handle_juniper_message request w =
      let peer = parse_peer request.peer in
      bind (juniper_text J H request)
        λ text. deliver_payload J ctx request.moment text peer.ip peer.port w

  -- JuniperStream::Proceed
  unfoldable pub juniper_proceed :
      Completion (JuniperRequest J.Real) → Stream → World → Partial (Turn World)
  juniper_proceed = proceed handle_juniper_message ctx.max_replies
