-- ===== src/Labels/Reload.antt =====
-- ReloadLabelMaps, which the daemon runs on SIGUSR1, and which its start does alike.
use text.Mathlib.Text.{◌==◌}
use mdt_dialout_collector.Common.{
  String, true, false, Option, List, Partial, done, bind, ◌≡◌, arith, if◌then◌else◌, Bool-cases,
  Partial-cases, inl, inr,
}
use mdt_dialout_collector.Common.Text.{Bytes}
use mdt_dialout_collector.Config.Params.{Params, find, value_at}
use mdt_dialout_collector.Config.Load.{Config, Machine, effective}
use mdt_dialout_collector.Config.DataManipulation.Accepts.{
  csv_on, ptm_on, default_csv, default_ptm, manipulation_valid, manipulation_params,
}
use mdt_dialout_collector.Labels.{LabelMap}
use mdt_dialout_collector.Labels.Csv.{Columns, load_label_map}
use mdt_dialout_collector.Labels.Ptm.{load_label_map_pre_tag_style}

-- What rapidcsv reads from the files at a path: the columns, or an exception.
pub record Csv : Type 0 where
  pub read_csv : String → Option Columns
  pub read_ptm : String → Option (List (List Bytes))

module _ (files : Csv) (cfg : Params) where
  unfoldable pub reload_csv : LabelMap → Partial LabelMap
  reload_csv m = bind (value_at cfg "enable_label_encode_as_map") λ enabled.
      if enabled == "true"
      then (bind (value_at cfg "label_map_csv_path") λ path. load_label_map (files.read_csv path))
      else done m

  unfoldable pub reload_ptm : LabelMap → Partial LabelMap
  reload_ptm m = bind (value_at cfg "enable_label_encode_as_map_ptm") λ enabled.
      if enabled == "true"
      then (bind (value_at cfg "label_map_ptm_path")
          λ path. load_label_map_pre_tag_style (files.read_ptm path))
      else done m

  -- ReloadLabelMaps
  unfoldable pub reload_label_maps : LabelMap → Partial LabelMap
  unfolding reload_csv reload_ptm
  reload_label_maps m = bind (reload_csv m) reload_ptm

-- With the settings of an accepted file, a reload gives the map of the CSV file where that label map
-- is enabled, the map of the pretag file where that one is, both from scratch, and keeps the map
-- where none is enabled; no setting is missing.
pub reload_label_maps_accepted :
    (files : Csv) (machine : Machine) (cfg : Config) (m : LabelMap)
    → manipulation_valid machine cfg ≡ true
    → reload_label_maps files (manipulation_params cfg) m ≡ (
        if csv_on cfg
        then load_label_map (files.read_csv (effective cfg "label_map_csv_path" default_csv))
        else if ptm_on cfg
        then load_label_map_pre_tag_style
            (files.read_ptm (effective cfg "label_map_ptm_path" default_ptm))
        else done m)
unfolding reload_label_maps reload_csv reload_ptm value_at find
reload_label_maps_accepted files machine cfg m valid = elim (Bool-cases (csv_on cfg)) [
  | inr off ↦ elim (Bool-cases (ptm_on cfg)) [ inl e ↦ ground arith | inr e ↦ ground arith ]
  | inl on ↦
      let alone : ptm_on cfg ≡ false = ground arith in
      let loaded =
        load_label_map (files.read_csv (effective cfg "label_map_csv_path" default_csv)) in
      elim (Partial-cases loaded) [ inl (m', e) ↦ ground arith | inr (x, e) ↦ ground arith ]
]
