-- ===== src/Tests/Published.antt =====
-- A stream of Juniper's responses that is published.
use mathlib.Core.List.{map}
use mdt_dialout_collector.Common.{
  ℕ, none, some, List, [], ◌∷◌, ◌++◌, ◌≡◌, refl, arith, done, true, false, ◌⊎◌,
}
use mdt_dialout_collector.Common.Number.{pos, stoi}
use mdt_dialout_collector.Common.Text.{Bytes, codes, equal}
use mdt_dialout_collector.Json.{takes_members}
use mdt_dialout_collector.Json.Assign.{assigned}
use mdt_dialout_collector.Json.Tree.{Tree, tree_json, tree_json-IsLawful}
use mdt_dialout_collector.Peer.{parse_peer}
use mdt_dialout_collector.Payload.Juniper.{
  HeaderExtension, registered_ext, juniper_update, juniper_extension, place,
}
use mdt_dialout_collector.Payload.Juniper.Values.{place_all}
use mdt_dialout_collector.Payload.Juniper.Header.{all_read, all_members}
use mdt_dialout_collector.Delivery.Kafka.{ProducerRecord}
use mdt_dialout_collector.Fsm.{new_stream, failed, completed}
use mdt_dialout_collector.Fsm.Serve.{run_stream}
use mdt_dialout_collector.Server.{Context, World}
use mdt_dialout_collector.Server.Juniper.{JuniperRequest, juniper_text, handle_juniper_message}
use mdt_dialout_collector.Server.Juniper.Text.{juniper_text-cases}
use mdt_dialout_collector.Server.Handed.{all_handed}
use mdt_dialout_collector.Server.Handed.Vendors.{juniper_hands}
use mdt_dialout_collector.Server.Handed.Published.{Served}
use mdt_dialout_collector.Server.Handed.Streams.{run_stream-Served}
use mdt_dialout_collector.Tests.Juniper.{notification}
use mdt_dialout_collector.Tests.Delivering.{context, moment, world}

-- A protobuf for which a header is its own text, and the name of a system.
abbrev header_text : HeaderExtension
header_text = record {
  Header = Bytes;
  parse_from_string = λ s. some s;
  system_id = λ s. s;
  message_to_json_string = λ s. some s;
}

abbrev response : JuniperRequest ℕ
response = record {
  peer = codes "ipv4:192.0.2.7:57400";
  extension = registered_ext 1 (codes "router") ∷ [];
  update = some notification;
  moment = moment;
}

abbrev responses : List (JuniperRequest ℕ)
responses = response ∷ response ∷ []

abbrev limited : Context
limited = record context { max_replies = pos 2 }

run_stream-Served_example :
    (w' : World) × (records : List ProducerRecord) × (run_stream
        (handle_juniper_message tree_json header_text limited)
        (pos 2)
        (completed response ∷ (map completed responses ++ (failed ∷ [])))
        new_stream
        world
      ≡ done (none, w'))
    × Served tree_json tree_json-IsLawful limited
        (all_handed tree_json limited (juniper_hands tree_json limited header_text) responses)
        world
        w'
        records
unfolding parse_peer stoi equal juniper_extension place_all place
run_stream-Served_example =
    run_stream-Served tree_json tree_json-IsLawful limited
      (juniper_hands tree_json limited header_text) 2 response responses failed [] world refl refl
      refl (omega arith) (omega arith) (refl, (refl, tt))
      (((pos 57400, refl), refl), (((pos 57400, refl), refl), tt))
      ((codes "n1", codes "p1", refl), tt) (omega arith)

juniper_text-cases_example :
    ((all_read tree_json header_text response.extension ≡ true)
      × (root : Tree) × (juniper_text tree_json header_text response
          ≡ juniper_update tree_json response.update root)
      × (takes_members tree_json root ≡ true)
      × ((j : Bytes)
          → tree_json.member? root j
            ≡ assigned j (all_members tree_json header_text response.extension) none))
    ⊎ ((all_read tree_json header_text response.extension ≡ false)
        × (juniper_text tree_json header_text response ≡ done []))
juniper_text-cases_example = juniper_text-cases tree_json tree_json-IsLawful header_text response
