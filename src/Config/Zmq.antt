-- ===== src/Config/Zmq.antt =====
-- ZmqCfgHandler::lookup_zmq_parameters
use text.Mathlib.Text.{◌==◌}
use mdt_dialout_collector.Common.{String, not, some, ◌≡◌, arith, [], ◌∷◌, if◌then◌else◌}
use mdt_dialout_collector.Config.Params.{Params, find, emplace, at, Load, accepted, ◌>>=◌}

-- `main_cfg` is the global `main_cfg_parameters`; the map is not cleared first
unfoldable pub lookup_zmq_parameters : Params → String → Params → Load Params
lookup_zmq_parameters main_cfg zmq_uri params = do
  delivery ← at main_cfg "data_delivery_method"
  if not (delivery == "zmq")
      then accepted (emplace "zmq_uri" "ipc:///tmp/dummy.sock" params)
      else accepted
          (emplace "zmq_uri" (if zmq_uri == "" then "ipc:///tmp/grpc.sock" else zmq_uri) params)

-- On a fresh map, where the delivery method is known: the socket is the dummy unless data go by
-- ZMQ, and then the caller's, or ipc:///tmp/grpc.sock where the caller names none.
pub lookup_zmq_parameters-find :
    (main_cfg : Params) (zmq_uri : String) {method : String}
    → find "data_delivery_method" main_cfg ≡ some method
    → lookup_zmq_parameters main_cfg zmq_uri []
      ≡ accepted (
          (
            "zmq_uri",
            if method == "zmq"
                then (if zmq_uri == "" then "ipc:///tmp/grpc.sock" else zmq_uri)
                else "ipc:///tmp/dummy.sock",
          )
          ∷ [])
unfolding lookup_zmq_parameters at emplace
lookup_zmq_parameters-find main_cfg zmq_uri h = ground arith
