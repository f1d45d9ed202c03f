-- ===== src/Config/Main/Vendors.antt =====
-- The three keys of each vendor in an accepted main map.
use text.Mathlib.Text.{◌==◌}
use mdt_dialout_collector.Common.{
  String, true, false, Option, none, some, ◌≡◌, refl, ◌∙◌, arith, if◌then◌else◌,
}
use mdt_dialout_collector.Config.Params.{Params, find, emplace, find-emplace, find-emplace_ne}
use mdt_dialout_collector.Config.Load.{Config, effective}
use mdt_dialout_collector.Config.Main.{
  VendorKeys, cisco_keys, juniper_keys, nokia_keys, huawei_keys,
}
use mdt_dialout_collector.Config.Main.Workers.{
  socket_value, sockets_params, workers_params, find-workers_params,
}
use mdt_dialout_collector.Config.Main.Accepts.{tls_params, main_params}

abbrev pub base : Config → Params
base cfg = sockets_params cfg (tls_params cfg)

-- The amounts of a vendor, where it has a socket.
abbrev amount : Config → VendorKeys → String → String → Option String
amount cfg v key default_value =
    if socket_value cfg v == "" then none else some (effective cfg key default_value)

-- The three keys of a vendor. Without a socket there are no replies and no workers.
pub record VendorReads (cfg : Config) (v : VendorKeys) (params : Params) : Type 0 where
  pub socket : find v.socket params ≡ some (socket_value cfg v)
  pub replies : find v.replies params ≡ amount cfg v v.replies "0"
  pub workers : find v.workers params ≡ amount cfg v v.workers "1"

module _ (cfg : Config) (v : VendorKeys) (params : Params) where
  find-workers_params_replies :
      find v.replies params ≡ none
      → (v.workers == v.replies) ≡ false
      → (v.replies == v.replies) ≡ true
      → find v.replies (workers_params cfg v params) ≡ amount cfg v v.replies "0"
  unfolding workers_params
  find-workers_params_replies fresh ne same = ground (
    arith,
    find-emplace_ne v.replies v.workers (effective cfg v.workers "1")
        (emplace v.replies (effective cfg v.replies "0") params),
    find-emplace v.replies v.replies (effective cfg v.replies "0") params,
  )

  find-workers_params_workers :
      find v.workers params ≡ none
      → (v.replies == v.workers) ≡ false
      → (v.workers == v.workers) ≡ true
      → find v.workers (workers_params cfg v params) ≡ amount cfg v v.workers "1"
  unfolding workers_params
  find-workers_params_workers fresh ne same = ground (
    arith,
    find-emplace_ne v.workers v.replies (effective cfg v.replies "0") params,
    find-emplace v.workers v.workers (effective cfg v.workers "1")
        (emplace v.replies (effective cfg v.replies "0") params),
  )

-- The maps after each turn of the second loop.
abbrev pub after_cisco : Config → Params
after_cisco cfg = workers_params cfg cisco_keys (base cfg)

abbrev pub after_juniper : Config → Params
after_juniper cfg = workers_params cfg juniper_keys (after_cisco cfg)

abbrev pub after_nokia : Config → Params
after_nokia cfg = workers_params cfg nokia_keys (after_juniper cfg)

abbrev pub after_huawei : Config → Params
after_huawei cfg = workers_params cfg huawei_keys (after_nokia cfg)

module _ (key : String) (cfg : Config) where
  abbrev pub Keeps : Params → Params → Type 0
  Keeps p q = find key q ≡ find key p

  pub Keeps-delivery :
      ("data_delivery_method" == key) ≡ false → Keeps (after_huawei cfg) (main_params cfg)
  unfolding main_params
  Keeps-delivery = find-emplace_ne key "data_delivery_method" _ (after_huawei cfg)

pub main_params-cisco : (cfg : Config) → VendorReads cfg cisco_keys (main_params cfg)
unfolding find emplace
main_params-cisco cfg = record {
  socket =
      Keeps-delivery "socket_cisco" cfg refl
      ∙ find-workers_params "socket_cisco" cfg huawei_keys (after_nokia cfg) refl refl
      ∙ find-workers_params "socket_cisco" cfg nokia_keys (after_juniper cfg) refl refl
      ∙ find-workers_params "socket_cisco" cfg juniper_keys (after_cisco cfg) refl refl
      ∙ find-workers_params "socket_cisco" cfg cisco_keys (base cfg) refl refl;
  replies =
      Keeps-delivery "replies_cisco" cfg refl
      ∙ find-workers_params "replies_cisco" cfg huawei_keys (after_nokia cfg) refl refl
      ∙ find-workers_params "replies_cisco" cfg nokia_keys (after_juniper cfg) refl refl
      ∙ find-workers_params "replies_cisco" cfg juniper_keys (after_cisco cfg) refl refl
      ∙ find-workers_params_replies cfg cisco_keys (base cfg) refl refl refl;
  workers =
      Keeps-delivery "cisco_workers" cfg refl
      ∙ find-workers_params "cisco_workers" cfg huawei_keys (after_nokia cfg) refl refl
      ∙ find-workers_params "cisco_workers" cfg nokia_keys (after_juniper cfg) refl refl
      ∙ find-workers_params "cisco_workers" cfg juniper_keys (after_cisco cfg) refl refl
      ∙ find-workers_params_workers cfg cisco_keys (base cfg) refl refl refl;
}

pub main_params-juniper : (cfg : Config) → VendorReads cfg juniper_keys (main_params cfg)
unfolding find emplace
main_params-juniper cfg = record {
  socket =
      Keeps-delivery "socket_juniper" cfg refl
      ∙ find-workers_params "socket_juniper" cfg huawei_keys (after_nokia cfg) refl refl
      ∙ find-workers_params "socket_juniper" cfg nokia_keys (after_juniper cfg) refl refl
      ∙ find-workers_params "socket_juniper" cfg juniper_keys (after_cisco cfg) refl refl
      ∙ find-workers_params "socket_juniper" cfg cisco_keys (base cfg) refl refl;
  replies =
      Keeps-delivery "replies_juniper" cfg refl
      ∙ find-workers_params "replies_juniper" cfg huawei_keys (after_nokia cfg) refl refl
      ∙ find-workers_params "replies_juniper" cfg nokia_keys (after_juniper cfg) refl refl
      ∙ find-workers_params_replies cfg juniper_keys (after_cisco cfg)
          (find-workers_params "replies_juniper" cfg cisco_keys (base cfg) refl refl) refl refl;
  workers =
      Keeps-delivery "juniper_workers" cfg refl
      ∙ find-workers_params "juniper_workers" cfg huawei_keys (after_nokia cfg) refl refl
      ∙ find-workers_params "juniper_workers" cfg nokia_keys (after_juniper cfg) refl refl
      ∙ find-workers_params_workers cfg juniper_keys (after_cisco cfg)
          (find-workers_params "juniper_workers" cfg cisco_keys (base cfg) refl refl) refl refl;
}

pub main_params-nokia : (cfg : Config) → VendorReads cfg nokia_keys (main_params cfg)
unfolding find emplace
main_params-nokia cfg = record {
  socket =
      Keeps-delivery "socket_nokia" cfg refl
      ∙ find-workers_params "socket_nokia" cfg huawei_keys (after_nokia cfg) refl refl
      ∙ find-workers_params "socket_nokia" cfg nokia_keys (after_juniper cfg) refl refl
      ∙ find-workers_params "socket_nokia" cfg juniper_keys (after_cisco cfg) refl refl
      ∙ find-workers_params "socket_nokia" cfg cisco_keys (base cfg) refl refl;
  replies =
      Keeps-delivery "replies_nokia" cfg refl
      ∙ find-workers_params "replies_nokia" cfg huawei_keys (after_nokia cfg) refl refl
      ∙ find-workers_params_replies cfg nokia_keys (after_juniper cfg)
          (find-workers_params "replies_nokia" cfg juniper_keys (after_cisco cfg) refl refl
            ∙ find-workers_params "replies_nokia" cfg cisco_keys (base cfg) refl refl)
          refl refl;
  workers =
      Keeps-delivery "nokia_workers" cfg refl
      ∙ find-workers_params "nokia_workers" cfg huawei_keys (after_nokia cfg) refl refl
      ∙ find-workers_params_workers cfg nokia_keys (after_juniper cfg)
          (find-workers_params "nokia_workers" cfg juniper_keys (after_cisco cfg) refl refl
            ∙ find-workers_params "nokia_workers" cfg cisco_keys (base cfg) refl refl)
          refl refl;
}

pub main_params-huawei : (cfg : Config) → VendorReads cfg huawei_keys (main_params cfg)
unfolding find emplace
main_params-huawei cfg = record {
  socket =
      Keeps-delivery "socket_huawei" cfg refl
      ∙ find-workers_params "socket_huawei" cfg huawei_keys (after_nokia cfg) refl refl
      ∙ find-workers_params "socket_huawei" cfg nokia_keys (after_juniper cfg) refl refl
      ∙ find-workers_params "socket_huawei" cfg juniper_keys (after_cisco cfg) refl refl
      ∙ find-workers_params "socket_huawei" cfg cisco_keys (base cfg) refl refl;
  replies =
      Keeps-delivery "replies_huawei" cfg refl
      ∙ find-workers_params_replies cfg huawei_keys (after_nokia cfg)
          (find-workers_params "replies_huawei" cfg nokia_keys (after_juniper cfg) refl refl
            ∙ find-workers_params "replies_huawei" cfg juniper_keys (after_cisco cfg) refl refl
            ∙ find-workers_params "replies_huawei" cfg cisco_keys (base cfg) refl refl)
          refl refl;
  workers =
      Keeps-delivery "huawei_workers" cfg refl
      ∙ find-workers_params_workers cfg huawei_keys (after_nokia cfg)
          (find-workers_params "huawei_workers" cfg nokia_keys (after_juniper cfg) refl refl
            ∙ find-workers_params "huawei_workers" cfg juniper_keys (after_cisco cfg) refl refl
            ∙ find-workers_params "huawei_workers" cfg cisco_keys (base cfg) refl refl)
          refl refl;
}
