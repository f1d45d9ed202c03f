-- ===== src/Tests/Juniper.antt =====
-- Juniper's updates at concrete inputs, and a stream of them that is published.
use mathlib.Core.List.{map}
use mdt_dialout_collector.Common.{ℕ, none, some, done, [], ◌∷◌, ◌≡◌, refl, String}
use mdt_dialout_collector.Common.Number.{pos, negsuc}
use mdt_dialout_collector.Common.Text.{Bytes, codes, equal}
use mdt_dialout_collector.Json.Assign.{assigned}
use mdt_dialout_collector.Json.Tree.{Tree, tree_json, tree_json-IsLawful}
use mdt_dialout_collector.Payload.Nokia.{PathElem, path_element}
use mdt_dialout_collector.Payload.Juniper.{
  JuniperUpdate, JuniperNotification, int_val, json_val, juniper_update,
}
use mdt_dialout_collector.Payload.Juniper.Values.{path_names}
use mdt_dialout_collector.Payload.Juniper.Nested.{find_path}
use mdt_dialout_collector.Payload.Juniper.Metrics.{juniper_update-metrics}
use mdt_dialout_collector.Payload.Juniper.Tags.{prefix_tags, juniper_update-tags}

abbrev named : String → PathElem
named name = record { name = codes name; key = [] }

abbrev interface : PathElem
interface = record { name = codes "interface"; key = (codes "name", codes "ge-0/0/0") ∷ [] }

abbrev mtu : JuniperUpdate ℕ
mtu = record { path = interface ∷ named "mtu" ∷ []; val = int_val (pos 1500) }

abbrev state : JuniperUpdate ℕ
state = record { path = interface ∷ named "state" ∷ []; val = json_val (codes "{}") }

abbrev pub notification : JuniperNotification ℕ
notification = record {
  timestamp = negsuc 0;
  prefix = interface ∷ [];
  update = state ∷ mtu ∷ state ∷ [];
}

juniper_update-metrics_example :
    (final : Tree) × (metrics : Tree) × (juniper_update tree_json (some notification) tree_json.null
      ≡ done (tree_json.write final))
    × (tree_json.member? final (codes "metrics") ≡ some metrics)
    × (find_path tree_json (path_names mtu.path) metrics ≡ some (tree_json.of_int (pos 1500)))
unfolding equal
juniper_update-metrics_example =
    juniper_update-metrics tree_json tree_json-IsLawful notification tree_json.null (state ∷ []) mtu
      (state ∷ []) refl refl refl (refl, tt) refl

juniper_update-tags_example :
    (final : Tree) × (path : Tree) × (tags : Tree) × (juniper_update tree_json
        (some notification)
        tree_json.null
      ≡ done (tree_json.write final))
    × (tree_json.member? final (codes "sensor_path") ≡ some path)
    × (tree_json.items path ≡ map (path_element tree_json) (interface ∷ []))
    × (tree_json.member? final (codes "notification_timestamp")
        ≡ some (tree_json.of_uint 18446744073709551615))
    × (tree_json.member? final (codes "tags") ≡ some tags)
    × ((j : Bytes)
        → tree_json.member? tags j ≡ assigned j (prefix_tags tree_json (interface ∷ [])) none)
unfolding equal
juniper_update-tags_example =
    juniper_update-tags tree_json tree_json-IsLawful notification tree_json.null refl refl
