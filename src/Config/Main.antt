-- ===== src/Config/Main.antt =====
-- MainCfgHandler::lookup_main_parameters
pub mod Workers
pub mod Accepts
pub mod Vendors
pub mod Reads
use text.Mathlib.Text.{◌==◌}
use mdt_dialout_collector.Common.{String, not, ◌||◌, List, [], ◌∷◌, if◌then◌else◌}
use mdt_dialout_collector.Config.Params.{Params, emplace, at, Load, accepted, rejected, ◌>>=◌}
use mdt_dialout_collector.Config.Load.{
  Config, Machine, exists, lookup, load_optional, load_optional_enum, load_mandatory,
  load_optional_path,
}
use mdt_dialout_collector.Config.Logs.{set_parameters}

-- `struct VendorKeys`
pub record VendorKeys : Type 0 where
  pub socket : String
  pub socket_legacy : String
  pub replies : String
  pub workers : String

abbrev pub cisco_keys : VendorKeys
cisco_keys = record {
  socket = "socket_cisco";
  socket_legacy = "ipv4_socket_cisco";
  replies = "replies_cisco";
  workers = "cisco_workers";
}

abbrev pub juniper_keys : VendorKeys
juniper_keys = record {
  socket = "socket_juniper";
  socket_legacy = "ipv4_socket_juniper";
  replies = "replies_juniper";
  workers = "juniper_workers";
}

abbrev pub nokia_keys : VendorKeys
nokia_keys = record {
  socket = "socket_nokia";
  socket_legacy = "ipv4_socket_nokia";
  replies = "replies_nokia";
  workers = "nokia_workers";
}

abbrev pub huawei_keys : VendorKeys
huawei_keys = record {
  socket = "socket_huawei";
  socket_legacy = "ipv4_socket_huawei";
  replies = "replies_huawei";
  workers = "huawei_workers";
}

abbrev pub vendors : List VendorKeys
vendors = cisco_keys ∷ juniper_keys ∷ nokia_keys ∷ huawei_keys ∷ []

-- the certificate and the key, which go with `enable_tls`
unfoldable pub load_tls : Machine → Config → Params → Load Params
load_tls machine cfg params = do
  enable_tls ← at params "enable_tls"
  if enable_tls == "true"
      then (if not (exists cfg "tls_cert_path") || not (exists cfg "tls_key_path")
          then rejected
          else (do
            tls_cert ← lookup cfg "tls_cert_path"
            tls_key ← lookup cfg "tls_key_path"
            if not (machine.file_exists tls_cert) || not (machine.file_exists tls_key)
                then rejected
                else accepted
                    (emplace "tls_key_path" tls_key (emplace "tls_cert_path" tls_cert params))))
      else accepted (emplace "tls_key_path" "" (emplace "tls_cert_path" "" params))

-- the body of the first loop: the socket, its deprecated name, or no socket
unfoldable pub load_socket : Config → VendorKeys → Params → Load Params
load_socket cfg v params =
    if exists cfg v.socket
    then load_optional cfg params v.socket ""
    else if exists cfg v.socket_legacy
    then (do value ← lookup cfg v.socket_legacy; accepted (emplace v.socket value params))
    else accepted (emplace v.socket "" params)

-- the body of the second loop: a vendor without a socket is passed over
unfoldable pub load_workers : Config → VendorKeys → Params → Load Params
load_workers cfg v params = do
  socket ← at params v.socket
  if socket == "" then accepted params else (do
    params ← load_optional cfg params v.replies "0"
    load_optional cfg params v.workers "1")

-- `for (const auto &v : vendors)`, left by the first vendor that is rejected
unfoldable pub for_each :
    (VendorKeys → Params → Load Params) → List VendorKeys → Params → Load Params
for_each body [] params = accepted params
for_each body (v ∷ vs) params = do params ← body v params; for_each body vs params

unfoldable pub load_writer : Machine → Config → Load Params
load_writer machine cfg = do
  params ← load_optional cfg [] "writer_id" "mdt-dialout-collector"
  params ← load_optional_path machine cfg params "core_pid_folder" "/var/run/"
  params ← load_mandatory cfg params "iface"
  params ← load_optional_enum cfg params "so_bindtodevice_check" "true" ("true" ∷ "false" ∷ [])
  load_optional_enum cfg params "enable_tls" "false" ("true" ∷ "false" ∷ [])

unfoldable pub lookup_main_parameters : Machine → String → Load Params
unfolding set_parameters
lookup_main_parameters machine cfg_path = do
  cfg ← set_parameters machine cfg_path
  params ← load_writer machine cfg
  params ← load_tls machine cfg params
  params ← for_each (load_socket cfg) vendors params
  params ← for_each (load_workers cfg) vendors params
  load_optional_enum cfg params "data_delivery_method" "kafka" ("kafka" ∷ "zmq" ∷ [])
