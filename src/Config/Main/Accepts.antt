-- ===== src/Config/Main/Accepts.antt =====
-- Which files the main handler accepts, and the map that it fills.
use text.Mathlib.Text.{◌==◌}
use mdt_dialout_collector.Common.{
  String, Bool, true, false, ◌&&◌, none, some, [], ◌∷◌, ◌≡◌, refl, arith, if◌then◌else◌,
  Option-cases, inl, inr,
}
use mdt_dialout_collector.Config.Params.{Params, find, emplace, at, rejected, accept_if}
use mdt_dialout_collector.Config.Load.{
  Config, Machine, string, exists, lookup, is_allowed, effective, admits, nonempty, admits_path,
  load_optional_lem, load_optional_enum_lem, load_mandatory_lem, load_optional_path_lem,
}
use mdt_dialout_collector.Config.Main.{load_tls, load_writer, lookup_main_parameters}
use mdt_dialout_collector.Config.Main.Workers.{
  sockets_valid, sockets_params, load_sockets_lem, all_workers_valid, all_workers_params,
  load_all_workers_lem, HasSockets,
}

abbrev admits_flag : Config → String → Bool
admits_flag cfg key = admits (λ v. is_allowed v ("true" ∷ "false" ∷ [])) cfg key

abbrev pub writer_valid : Machine → Config → Bool
writer_valid machine cfg =
    admits nonempty cfg "writer_id"
    && admits_path machine cfg "core_pid_folder" "/var/run/"
    && exists cfg "iface"
    && admits nonempty cfg "iface"
    && admits_flag cfg "so_bindtodevice_check"
    && admits_flag cfg "enable_tls"

abbrev pub writer_params : Config → Params
writer_params cfg =
    ("enable_tls", effective cfg "enable_tls" "false")
    ∷ ("so_bindtodevice_check", effective cfg "so_bindtodevice_check" "true")
    ∷ ("iface", effective cfg "iface" "")
    ∷ ("core_pid_folder", effective cfg "core_pid_folder" "/var/run/")
    ∷ ("writer_id", effective cfg "writer_id" "mdt-dialout-collector")
    ∷ []

load_writer_lem :
    (machine : Machine) (cfg : Config)
    → load_writer machine cfg ≡ accept_if (writer_valid machine cfg) (writer_params cfg)
unfolding load_writer emplace
load_writer_lem machine cfg =
    simp (load_optional_lem, load_optional_path_lem, load_mandatory_lem, load_optional_enum_lem)
      (ground arith)

abbrev pub tls_on : Config → Bool
tls_on cfg = effective cfg "enable_tls" "false" == "true"

-- The setting is given as a text that names a file.
unfoldable pub gives_file : Machine → Config → String → Bool
gives_file machine cfg key = elim (cfg key) [ string s ↦ machine.file_exists s | _ ↦ false ]

abbrev pub tls_valid : Machine → Config → Bool
tls_valid machine cfg =
    if tls_on cfg
    then gives_file machine cfg "tls_cert_path" && gives_file machine cfg "tls_key_path"
    else true

abbrev pub tls_params : Config → Params
tls_params cfg =
    ("tls_key_path", if tls_on cfg then effective cfg "tls_key_path" "" else "")
    ∷ ("tls_cert_path", if tls_on cfg then effective cfg "tls_cert_path" "" else "")
    ∷ writer_params cfg

load_tls_lem :
    (machine : Machine) (cfg : Config)
    → load_tls machine cfg (writer_params cfg) ≡ accept_if (tls_valid machine cfg) (tls_params cfg)
unfolding load_tls at emplace exists lookup effective gives_file
load_tls_lem machine cfg = ground arith

abbrev pub main_valid : Machine → Config → Bool
main_valid machine cfg =
    writer_valid machine cfg
    && tls_valid machine cfg
    && sockets_valid cfg
    && all_workers_valid cfg
    && admits (λ v. is_allowed v ("kafka" ∷ "zmq" ∷ [])) cfg "data_delivery_method"

abbrev with_sockets : Config → Params
with_sockets cfg = sockets_params cfg (tls_params cfg)

unfoldable pub main_params : Config → Params
main_params cfg =
    emplace "data_delivery_method" (effective cfg "data_delivery_method" "kafka")
      (all_workers_params cfg (with_sockets cfg))

with_sockets-HasSockets : (cfg : Config) → HasSockets cfg (with_sockets cfg)
unfolding find emplace
with_sockets-HasSockets cfg = record { cisco = refl; juniper = refl; nokia = refl; huawei = refl }

-- The handler rejects an unreadable file. It accepts a file exactly where each setting that it
-- reads is admissible: the interface is given, the folder of the PID file is there, with TLS the
-- certificate and the key are given and are there, and the amounts of replies and workers of each
-- vendor with a socket are not empty texts. The map is then `main_params`. It throws nothing.
pub lookup_main_parameters-accept_if :
    (machine : Machine) (cfg_path : String)
    → lookup_main_parameters machine cfg_path ≡ elim (machine.read_file cfg_path) [
      | none ↦ rejected
      | some cfg ↦ accept_if (main_valid machine cfg) (main_params cfg)
    ]
unfolding lookup_main_parameters main_params
lookup_main_parameters-accept_if machine cfg_path =
    elim (Option-cases (machine.read_file cfg_path)) [
      | inl missing ↦ ground arith
      | inr (cfg, found) ↦ ground (
        arith,
        load_writer_lem machine cfg,
        load_tls_lem machine cfg,
        load_sockets_lem cfg (tls_params cfg),
        load_all_workers_lem cfg (with_sockets cfg) (with_sockets-HasSockets cfg),
        load_optional_enum_lem cfg (all_workers_params cfg (with_sockets cfg))
            "data_delivery_method" "kafka" ("kafka" ∷ "zmq" ∷ []),
      )
    ]
