-- ===== src/Labels/Paired.antt =====
-- The label maps that the loaders make give every address two labels.
use text.Mathlib.Text.{◌==◌}
use mdt_dialout_collector.Common.{
  Option, none, some, List, [], ◌∷◌, ◌≡◌, refl, arith, ℕ, ◌+◌, done, bind-eq-done, done-injective,
  subst, All, Bool-cases, inl, inr, found_or, bad_index, get_elem?,
}
use mdt_dialout_collector.Common.Text.{Bytes, equal}
use mdt_dialout_collector.Config.Params.{Params, value_at}
use mdt_dialout_collector.Labels.{LabelMap, find_label, put_label}
use mdt_dialout_collector.Labels.Csv.{fill_map, load_label_map}
use mdt_dialout_collector.Labels.Ptm.{
  remove_row, get_column, parse_rows, load_label_map_pre_tag_style,
}
use mdt_dialout_collector.Labels.Reload.{Csv, reload_csv, reload_ptm, reload_label_maps}

-- Two labels.
abbrev pub ArePair : List Bytes → Type 0
ArePair v = (n : Bytes) × (p : Bytes) × (v ≡ n ∷ p ∷ [])

abbrev pub IsPaired : LabelMap → Type 0
IsPaired m = All (λ (kv : Bytes × List Bytes). ArePair kv.1) m

pub find_label-ArePair :
    (ip : Bytes) (m : LabelMap) {v : List Bytes} → IsPaired m → find_label ip m ≡ some v → ArePair v
unfolding find_label
find_label-ArePair ip [] all h = absurd (cc)
find_label-ArePair ip ((k, w) ∷ m) ((n, p, e), rest) h = elim (Bool-cases (equal k ip)) [
  | inl same ↦ (n, p, ground arith)
  | inr other ↦ find_label-ArePair ip m rest (rw other at h)
]

put_label-IsPaired :
    (ip : Bytes) (v : List Bytes) (m : LabelMap)
    → ArePair v
    → IsPaired m
    → IsPaired (put_label ip v m)
unfolding put_label
put_label-IsPaired ip v [] pair all = (pair, tt)
put_label-IsPaired ip v ((k, w) ∷ m) pair (one, rest) = elim (Bool-cases (equal k ip)) [
  | inl same ↦ rw same (pair, rest)
  | inr other ↦ rw other (one, put_label-IsPaired ip v m pair rest)
]

fill_map-IsPaired :
    (idx : ℕ) (ips nid pid : List Bytes) (m : LabelMap) {m' : LabelMap}
    → IsPaired m
    → fill_map idx ips nid pid m ≡ done m'
    → IsPaired m'
unfolding fill_map
fill_map-IsPaired idx [] nid pid m all h = subst IsPaired (done-injective h) all
fill_map-IsPaired idx (ip ∷ ips) nid pid m all h =
    let (n, _, h1) = bind-eq-done (found_or bad_index (get_elem? nid idx)) _ h in
    let (p, _, h2) = bind-eq-done (found_or bad_index (get_elem? pid idx)) _ h1 in
    fill_map-IsPaired (idx + 1) ips nid pid (put_label ip (n ∷ p ∷ []) m)
      (put_label-IsPaired ip (n ∷ p ∷ []) m (n, p, refl) all) h2

load_label_map-IsPaired :
    (read : Option (List Bytes × List Bytes × List Bytes)) {m : LabelMap}
    → load_label_map read ≡ done m
    → IsPaired m
unfolding load_label_map
load_label_map-IsPaired none h = absurd (cc)
load_label_map-IsPaired (some (ips, nid, pid)) h = fill_map-IsPaired 0 ips nid pid [] tt h

load_label_map_pre_tag_style-IsPaired :
    (read : Option (List (List Bytes))) {m : LabelMap}
    → load_label_map_pre_tag_style read ≡ done m
    → IsPaired m
unfolding load_label_map_pre_tag_style
load_label_map_pre_tag_style-IsPaired none h = absurd (cc)
load_label_map_pre_tag_style-IsPaired (some doc) h0 =
    let (rows, _, h2) = bind-eq-done (remove_row doc) _ h0 in
    let (labels, _, h3) = bind-eq-done (get_column 0 rows) _ h2 in
    let (addrs, _, h) = bind-eq-done (get_column 1 rows) _ h3 in
    let ((ips, nid, pid), _, h1) = bind-eq-done (parse_rows 0 addrs labels ([], [], [])) _ h in
    fill_map-IsPaired 0 ips nid pid [] tt h1

reload_csv-IsPaired :
    (files : Csv) (cfg : Params) (m : LabelMap) {m' : LabelMap}
    → IsPaired m
    → reload_csv files cfg m ≡ done m'
    → IsPaired m'
unfolding reload_csv
reload_csv-IsPaired files cfg m all h =
    let (enabled, _, h1) = bind-eq-done (value_at cfg "enable_label_encode_as_map") _ h in
    elim (Bool-cases (enabled == "true")) [
      | inr off ↦ subst IsPaired (done-injective (rw off at h1)) all
      | inl on ↦
          let (path, _, h2) = bind-eq-done (value_at cfg "label_map_csv_path") _ (rw on at h1) in
          load_label_map-IsPaired (files.read_csv path) h2
    ]

reload_ptm-IsPaired :
    (files : Csv) (cfg : Params) (m : LabelMap) {m' : LabelMap}
    → IsPaired m
    → reload_ptm files cfg m ≡ done m'
    → IsPaired m'
unfolding reload_ptm
reload_ptm-IsPaired files cfg m all h =
    let (enabled, _, h1) = bind-eq-done (value_at cfg "enable_label_encode_as_map_ptm") _ h in
    elim (Bool-cases (enabled == "true")) [
      | inr off ↦ subst IsPaired (done-injective (rw off at h1)) all
      | inl on ↦
          let (path, _, h2) = bind-eq-done (value_at cfg "label_map_ptm_path") _ (rw on at h1) in
          load_label_map_pre_tag_style-IsPaired (files.read_ptm path) h2
    ]

-- A reload that completes leaves a map that gives every address in it two labels, whatever the files
-- and the settings are, where the map before did; so does the first load, into an empty map.
pub reload_label_maps-IsPaired :
    (files : Csv) (cfg : Params) (m : LabelMap) {m' : LabelMap}
    → IsPaired m
    → reload_label_maps files cfg m ≡ done m'
    → IsPaired m'
unfolding reload_label_maps
reload_label_maps-IsPaired files cfg m all h =
    let (between, h1, h2) = bind-eq-done (reload_csv files cfg m) _ h in
    reload_ptm-IsPaired files cfg between (reload_csv-IsPaired files cfg m all h1) h2
