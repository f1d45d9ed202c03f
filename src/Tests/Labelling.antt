-- ===== src/Tests/Labelling.antt =====
-- Label maps and the threads of a vendor at concrete inputs.
use mdt_dialout_collector.Common.{none, some, [], ◌∷◌, ◌≡◌, refl, arith, done}
use mdt_dialout_collector.Common.Text.{Bytes, codes, has}
use mdt_dialout_collector.Labels.{LabelMap, find_label}
use mdt_dialout_collector.Labels.Csv.{
  Row, columns, labels_of, load_label_map, load_label_map-labels_of,
}
use mdt_dialout_collector.Labels.Ptm.{load_label_map_pre_tag_style}
use mdt_dialout_collector.Labels.Ptm.SameAsCsv.{
  PtmRow, IsWellFormed, load_label_map_pre_tag_style-load_label_map,
}
use mdt_dialout_collector.Config.Params.{Params}
use mdt_dialout_collector.Startup.Threads.{
  load_threads, load_bridge_threads, or_none, load_bridge_threads-load_threads,
}

abbrev router : Row
router = record { ip = codes "192.0.2.7"; nkey = codes "n1"; pkey = codes "p1" }

abbrev renamed : Row
renamed = record { ip = codes "192.0.2.7"; nkey = codes "n2"; pkey = codes "p2" }

load_label_map-labels_of_example :
    (m : LabelMap) × (load_label_map (some (columns (router ∷ renamed ∷ []))) ≡ done m)
    × ((ip : Bytes) → find_label ip m ≡ labels_of ip (router ∷ renamed ∷ []) none)
load_label_map-labels_of_example = load_label_map-labels_of (router ∷ renamed ∷ [])

abbrev ptm_row : PtmRow
ptm_row = record { row = router; mask = codes "32" }

ptm_row-IsWellFormed : IsWellFormed ptm_row
unfolding has
ptm_row-IsWellFormed = record {
  nkey_plain = refl;
  pkey_plain = refl;
  mask_plain = refl;
  label_short = omega arith;
  address_short = omega arith;
}

load_label_map_pre_tag_style-load_label_map_example :
    load_label_map_pre_tag_style (
      some (
        (codes "set_label=nkey%n1%pkey%p1" ∷ codes "ip=192.0.2.7/32" ∷ [])
        ∷ (codes "set_label=nkey%unknown%pkey%unknown" ∷ [])
        ∷ []))
    ≡ load_label_map (some (codes "192.0.2.7" ∷ [], codes "n1" ∷ [], codes "p1" ∷ []))
load_label_map_pre_tag_style-load_label_map_example =
    load_label_map_pre_tag_style-load_label_map (ptm_row ∷ [])
      (codes "set_label=nkey%unknown%pkey%unknown" ∷ []) (ptm_row-IsWellFormed, tt)

abbrev nokia_params : Params
nokia_params =
    ("socket_nokia", "0.0.0.0:10007") ∷ ("replies_nokia", "100") ∷ ("nokia_workers", "2") ∷ []

load_bridge_threads-load_threads_example :
    load_bridge_threads nokia_params [] "socket_nokia" "replies_nokia" "nokia_workers"
    ≡ or_none (load_threads nokia_params "socket_nokia" "replies_nokia" "nokia_workers")
load_bridge_threads-load_threads_example =
    load_bridge_threads-load_threads nokia_params "socket_nokia" "replies_nokia" "nokia_workers"
