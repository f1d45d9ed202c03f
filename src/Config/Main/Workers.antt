-- ===== src/Config/Main/Workers.antt =====
-- The two loops over the vendors: which settings pass, and what they leave in the map.
use text.Mathlib.Text.{◌==◌}
use mdt_dialout_collector.Common.{
  String, Bool, true, false, ◌&&◌, some, ◌≡◌, refl, ◌∙◌, arith, if◌then◌else◌,
}
use mdt_dialout_collector.Config.Params.{
  Params, find, emplace, accept_if, find-emplace_ne, at_of_find,
}
use mdt_dialout_collector.Config.Load.{
  Config, exists, lookup, effective, admits, nonempty, load_optional_lem,
}
use mdt_dialout_collector.Config.Main.{
  VendorKeys, vendors, load_socket, load_workers, for_each, cisco_keys, juniper_keys, nokia_keys,
  huawei_keys,
}

-- The socket that a vendor listens on: the setting, else its deprecated name, else none.
unfoldable pub socket_value : Config → VendorKeys → String
socket_value cfg v =
    if exists cfg v.socket then effective cfg v.socket "" else effective cfg v.socket_legacy ""

-- A deprecated socket may be empty, a new one may not.
unfoldable pub socket_valid : Config → VendorKeys → Bool
socket_valid cfg v =
    if exists cfg v.socket
    then admits nonempty cfg v.socket
    else admits (λ _. true) cfg v.socket_legacy

load_socket_lem :
    (cfg : Config) (v : VendorKeys) (params : Params)
    → load_socket cfg v params
      ≡ accept_if (socket_valid cfg v) (emplace v.socket (socket_value cfg v) params)
unfolding load_socket socket_valid socket_value exists lookup effective admits
load_socket_lem cfg v params = rw load_optional_lem (ground arith)

abbrev pub sockets_valid : Config → Bool
sockets_valid cfg =
    socket_valid cfg cisco_keys
    && socket_valid cfg juniper_keys
    && socket_valid cfg nokia_keys
    && socket_valid cfg huawei_keys

abbrev pub sockets_params : Config → Params → Params
sockets_params cfg params = emplace "socket_huawei" (socket_value cfg huawei_keys) (
    emplace "socket_nokia" (socket_value cfg nokia_keys) (
      emplace "socket_juniper" (socket_value cfg juniper_keys)
        (emplace "socket_cisco" (socket_value cfg cisco_keys) params)))

pub load_sockets_lem :
    (cfg : Config) (params : Params)
    → for_each (load_socket cfg) vendors params
      ≡ accept_if (sockets_valid cfg) (sockets_params cfg params)
unfolding for_each
load_sockets_lem cfg params = simp load_socket_lem (ground arith)

-- The amounts of replies and workers are read for a vendor with a socket alone.
unfoldable pub workers_valid : Config → VendorKeys → Bool
workers_valid cfg v =
    if socket_value cfg v == ""
    then true
    else admits nonempty cfg v.replies && admits nonempty cfg v.workers

unfoldable pub workers_params : Config → VendorKeys → Params → Params
workers_params cfg v params =
    if socket_value cfg v == ""
    then params
    else emplace v.workers (effective cfg v.workers "1")
        (emplace v.replies (effective cfg v.replies "0") params)

load_workers_lem :
    (cfg : Config) (v : VendorKeys) (params : Params)
    → find v.socket params ≡ some (socket_value cfg v)
    → load_workers cfg v params ≡ accept_if (workers_valid cfg v) (workers_params cfg v params)
unfolding load_workers workers_valid workers_params
load_workers_lem cfg v params h =
    simp (at_of_find params v.socket h, load_optional_lem) (ground arith)

pub find-workers_params :
    (key : String) (cfg : Config) (v : VendorKeys) (params : Params)
    → (v.workers == key) ≡ false
    → (v.replies == key) ≡ false
    → find key (workers_params cfg v params) ≡ find key params
unfolding workers_params
find-workers_params key cfg v params w r = ground (
  arith,
  find-emplace_ne key v.workers (effective cfg v.workers "1")
      (emplace v.replies (effective cfg v.replies "0") params),
  find-emplace_ne key v.replies (effective cfg v.replies "0") params,
)

abbrev pub all_workers_valid : Config → Bool
all_workers_valid cfg =
    workers_valid cfg cisco_keys
    && workers_valid cfg juniper_keys
    && workers_valid cfg nokia_keys
    && workers_valid cfg huawei_keys

abbrev pub all_workers_params : Config → Params → Params
all_workers_params cfg params = workers_params cfg huawei_keys (
    workers_params cfg nokia_keys
      (workers_params cfg juniper_keys (workers_params cfg cisco_keys params)))

-- The map holds the sockets of the four vendors.
pub record HasSockets (cfg : Config) (params : Params) : Type 0 where
  pub cisco : find "socket_cisco" params ≡ some (socket_value cfg cisco_keys)
  pub juniper : find "socket_juniper" params ≡ some (socket_value cfg juniper_keys)
  pub nokia : find "socket_nokia" params ≡ some (socket_value cfg nokia_keys)
  pub huawei : find "socket_huawei" params ≡ some (socket_value cfg huawei_keys)

pub load_all_workers_lem :
    (cfg : Config) (params : Params)
    → HasSockets cfg params
    → for_each (load_workers cfg) vendors params
      ≡ accept_if (all_workers_valid cfg) (all_workers_params cfg params)
unfolding for_each
load_all_workers_lem cfg params has =
    let p1 = workers_params cfg cisco_keys params in
    let p2 = workers_params cfg juniper_keys p1 in
    let p3 = workers_params cfg nokia_keys p2 in
    ground (
      arith,
      load_workers_lem cfg cisco_keys params has.cisco,
      load_workers_lem cfg juniper_keys p1
          (find-workers_params "socket_juniper" cfg cisco_keys params refl refl ∙ has.juniper),
      load_workers_lem cfg nokia_keys p2 (
          find-workers_params "socket_nokia" cfg juniper_keys p1 refl refl
          ∙ find-workers_params "socket_nokia" cfg cisco_keys params refl refl
          ∙ has.nokia),
      load_workers_lem cfg huawei_keys p3 (
          find-workers_params "socket_huawei" cfg nokia_keys p2 refl refl
          ∙ find-workers_params "socket_huawei" cfg juniper_keys p1 refl refl
          ∙ find-workers_params "socket_huawei" cfg cisco_keys params refl refl
          ∙ has.huawei),
    )
