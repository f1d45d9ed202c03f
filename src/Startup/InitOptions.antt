-- ===== src/Startup/InitOptions.antt =====
-- InitOptions of the bridge.
use text.Mathlib.Text.{◌==◌}
use mdt_dialout_collector.Common.{
  String, true, none, some, List, [], ◌∷◌, Partial, done, thrown, out_of_range, bind, ◌≡◌, refl,
  arith, ◌++◌, ◌⊎◌, inl, inr, ℕ, zero, suc, get_elem?, Option-cases,
}
use mdt_dialout_collector.Config.Params.{Params, find, value_at}
use mdt_dialout_collector.Config.Load.{Config}
use mdt_dialout_collector.Config.Main.{
  VendorKeys, cisco_keys, juniper_keys, nokia_keys, huawei_keys,
}
use mdt_dialout_collector.Config.Main.Workers.{socket_value}
use mdt_dialout_collector.Config.Main.Reads.{MainReads}
use mdt_dialout_collector.Config.Main.Vendors.{VendorReads}
use mdt_dialout_collector.Startup.{Globals}

-- `m.at(key)` for each of the keys, in their order
unfoldable pub values_at : Params → List String → Partial (List String)
unfolding value_at
values_at m [] = done []
values_at m (key ∷ keys) = bind (value_at m key) λ v. bind (values_at m keys) λ vs. done (v ∷ vs)

-- the keys of the main map, in the order of the members of `Options`
abbrev pub main_keys : List String
main_keys =
    "writer_id" ∷ "iface" ∷ "socket_cisco" ∷ "socket_juniper" ∷ "socket_nokia" ∷ "socket_huawei"
    ∷ "cisco_workers" ∷ "juniper_workers" ∷ "nokia_workers" ∷ "huawei_workers" ∷ "replies_cisco"
    ∷ "replies_juniper" ∷ "replies_nokia" ∷ "replies_huawei" ∷ []

abbrev pub logs_keys : List String
logs_keys = "syslog" ∷ "syslog_facility" ∷ "syslog_ident" ∷ "console_log" ∷ "spdlog_level" ∷ []

abbrev pub manipulation_keys : List String
manipulation_keys =
    "enable_cisco_gpbkv2json" ∷ "enable_cisco_message_to_json_string" ∷ "enable_label_encode_as_map"
    ∷ "enable_label_encode_as_map_ptm" ∷ []

-- InitOptions: the members of `Options` in their order
unfoldable pub init_options : Globals → Partial (List String)
unfolding values_at
init_options g = bind (values_at g.main main_keys) λ main. bind (values_at g.logs logs_keys) λ logs.
    bind (values_at g.data_manipulation manipulation_keys)
      λ manipulation. done (main ++ (logs ++ manipulation))

values_at_missing :
    (m : Params) (keys : List String) (i : ℕ) {key : String}
    → get_elem? keys i ≡ some key
    → find key m ≡ none
    → values_at m keys ≡ thrown out_of_range
unfolding values_at value_at
values_at_missing m [] i found missing = absurd (cc)
values_at_missing m (k ∷ keys) zero found missing = ground arith
values_at_missing m (k ∷ keys) (suc i) found missing = elim (Option-cases (find k m)) [
  | inl gone ↦ ground arith
  | inr (v, there) ↦ ground (arith, values_at_missing m keys i found missing)
]

pub unset-missing :
    (cfg : Config) (v : VendorKeys) (m : Params)
    → VendorReads cfg v m
    → (socket_value cfg v == "") ≡ true
    → find v.workers m ≡ none
unset-missing cfg v m r h = ground (arith, r.workers)

-- For the map of an accepted file in which some vendor has no socket, InitOptions throws
-- std::out_of_range: that vendor's amount of workers is not in the map.
pub init_options_unset :
    (cfg : Config) (g : Globals)
    → MainReads cfg g.main
    → ((socket_value cfg cisco_keys == "") ≡ true)
      ⊎ (((socket_value cfg juniper_keys == "") ≡ true)
          ⊎ (((socket_value cfg nokia_keys == "") ≡ true)
              ⊎ ((socket_value cfg huawei_keys == "") ≡ true)))
    → init_options g ≡ thrown out_of_range
unfolding init_options
init_options_unset cfg g r h = rw (main_missing h) refl
  where
    main_missing :
        ((socket_value cfg cisco_keys == "") ≡ true)
          ⊎ (((socket_value cfg juniper_keys == "") ≡ true)
              ⊎ (((socket_value cfg nokia_keys == "") ≡ true)
                  ⊎ ((socket_value cfg huawei_keys == "") ≡ true)))
        → values_at g.main main_keys ≡ thrown out_of_range
    main_missing (inl e) =
        values_at_missing g.main main_keys 6 refl (unset-missing cfg cisco_keys g.main r.cisco e)
    main_missing (inr (inl e)) =
        values_at_missing g.main main_keys 7 refl
          (unset-missing cfg juniper_keys g.main r.juniper e)
    main_missing (inr (inr (inl e))) =
        values_at_missing g.main main_keys 8 refl (unset-missing cfg nokia_keys g.main r.nokia e)
    main_missing (inr (inr (inr e))) =
        values_at_missing g.main main_keys 9 refl (unset-missing cfg huawei_keys g.main r.huawei e)
