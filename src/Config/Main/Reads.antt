-- ===== src/Config/Main/Reads.antt =====
-- What the rest of the program reads from an accepted main map.
use text.Mathlib.Text.{◌==◌}
use mdt_dialout_collector.Common.{
  String, true, false, some, ◌≡◌, refl, sym, ◌∙◌, arith, if◌then◌else◌, Option-cases, inl, inr,
}
use mdt_dialout_collector.Config.Params.{
  Params, find, emplace, accepted, find-emplace_self, accept_if-inv,
}
use mdt_dialout_collector.Config.Load.{Config, Machine, effective}
use mdt_dialout_collector.Config.Main.{
  cisco_keys, juniper_keys, nokia_keys, huawei_keys, lookup_main_parameters,
}
use mdt_dialout_collector.Config.Main.Workers.{find-workers_params}
use mdt_dialout_collector.Config.Main.Accepts.{
  tls_on, main_valid, main_params, lookup_main_parameters-accept_if,
}
use mdt_dialout_collector.Config.Main.Vendors.{
  base, VendorReads, after_cisco, after_juniper, after_nokia, after_huawei, Keeps-delivery,
  main_params-cisco, main_params-juniper, main_params-nokia, main_params-huawei,
}

-- A key that no loop writes is read as the first part of the handler left it.
main_params_other :
    (key : String) (cfg : Config)
    → ("data_delivery_method" == key) ≡ false
    → ("cisco_workers" == key) ≡ false
    → ("replies_cisco" == key) ≡ false
    → ("juniper_workers" == key) ≡ false
    → ("replies_juniper" == key) ≡ false
    → ("nokia_workers" == key) ≡ false
    → ("replies_nokia" == key) ≡ false
    → ("huawei_workers" == key) ≡ false
    → ("replies_huawei" == key) ≡ false
    → find key (main_params cfg) ≡ find key (base cfg)
main_params_other key cfg d cw cr jw jr nw nr hw hr =
    Keeps-delivery key cfg d
    ∙ find-workers_params key cfg huawei_keys (after_nokia cfg) hw hr
    ∙ find-workers_params key cfg nokia_keys (after_juniper cfg) nw nr
    ∙ find-workers_params key cfg juniper_keys (after_cisco cfg) jw jr
    ∙ find-workers_params key cfg cisco_keys (base cfg) cw cr

-- What an accepted map holds for the keys that the program reads.
pub record MainReads (cfg : Config) (params : Params) : Type 0 where
  pub writer_id : find "writer_id" params ≡ some (effective cfg "writer_id" "mdt-dialout-collector")
  pub core_pid_folder :
      find "core_pid_folder" params ≡ some (effective cfg "core_pid_folder" "/var/run/")
  pub iface : find "iface" params ≡ some (effective cfg "iface" "")
  pub bindtodevice :
      find "so_bindtodevice_check" params ≡ some (effective cfg "so_bindtodevice_check" "true")
  pub enable_tls : find "enable_tls" params ≡ some (effective cfg "enable_tls" "false")
  pub tls_cert :
      find "tls_cert_path" params
      ≡ some (if tls_on cfg then effective cfg "tls_cert_path" "" else "")
  pub tls_key :
      find "tls_key_path" params ≡ some (if tls_on cfg then effective cfg "tls_key_path" "" else "")
  pub cisco : VendorReads cfg cisco_keys params
  pub juniper : VendorReads cfg juniper_keys params
  pub nokia : VendorReads cfg nokia_keys params
  pub huawei : VendorReads cfg huawei_keys params
  pub delivery :
      find "data_delivery_method" params ≡ some (effective cfg "data_delivery_method" "kafka")

find_delivery :
    (cfg : Config)
    → find "data_delivery_method" (main_params cfg)
      ≡ some (effective cfg "data_delivery_method" "kafka")
unfolding main_params find emplace
find_delivery cfg =
    find-emplace_self "data_delivery_method" (effective cfg "data_delivery_method" "kafka")
      (after_huawei cfg)
      (find-workers_params "data_delivery_method" cfg huawei_keys (after_nokia cfg) refl refl
        ∙ find-workers_params "data_delivery_method" cfg nokia_keys (after_juniper cfg) refl refl
        ∙ find-workers_params "data_delivery_method" cfg juniper_keys (after_cisco cfg) refl refl
        ∙ find-workers_params "data_delivery_method" cfg cisco_keys (base cfg) refl refl)
      refl

pub main_params-MainReads : (cfg : Config) → MainReads cfg (main_params cfg)
unfolding find emplace
main_params-MainReads cfg = record {
  writer_id = main_params_other "writer_id" cfg refl refl refl refl refl refl refl refl refl;
  core_pid_folder =
      main_params_other "core_pid_folder" cfg refl refl refl refl refl refl refl refl refl;
  iface = main_params_other "iface" cfg refl refl refl refl refl refl refl refl refl;
  bindtodevice =
      main_params_other "so_bindtodevice_check" cfg refl refl refl refl refl refl refl refl refl;
  enable_tls = main_params_other "enable_tls" cfg refl refl refl refl refl refl refl refl refl;
  tls_cert = main_params_other "tls_cert_path" cfg refl refl refl refl refl refl refl refl refl;
  tls_key = main_params_other "tls_key_path" cfg refl refl refl refl refl refl refl refl refl;
  cisco = main_params-cisco cfg;
  juniper = main_params-juniper cfg;
  nokia = main_params-nokia cfg;
  huawei = main_params-huawei cfg;
  delivery = find_delivery cfg;
}

-- Whatever map the handler accepts for a file, it comes from that file alone and holds every key
-- that the program reads, each with its text or its default. A vendor's amounts of replies and
-- workers are there exactly where it has a socket.
pub lookup_main_parameters-MainReads :
    (machine : Machine) (cfg_path : String) {params : Params}
    → lookup_main_parameters machine cfg_path ≡ accepted params
    → (cfg : Config) × (machine.read_file cfg_path ≡ some cfg)
      × (main_valid machine cfg ≡ true)
      × MainReads cfg params
lookup_main_parameters-MainReads machine cfg_path {params} h =
    elim (Option-cases (machine.read_file cfg_path)) [
      | inl missing ↦ ground (arith, lookup_main_parameters-accept_if machine cfg_path)
      | inr (cfg, found) ↦
          let (ok, same) =
            accept_if-inv (main_valid machine cfg) (main_params cfg)
              (sym (lookup_main_parameters-accept_if machine cfg_path ∙ rw found) ∙ h) in
          (cfg, found, ok, rw same at (main_params-MainReads cfg))
    ]
