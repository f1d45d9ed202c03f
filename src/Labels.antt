-- ===== src/Labels.antt =====
-- src/mdt_dialout_collector.cc: the label map, and how it is loaded from the two kinds of files.
pub mod Csv
pub mod Ptm
pub mod Reload
pub mod Paired
use mdt_dialout_collector.Common.{Option, none, some, List, [], ◌∷◌, if◌then◌else◌}
use mdt_dialout_collector.Common.Text.{Bytes, equal}

-- `std::unordered_map<std::string, std::vector<std::string>>`
abbrev pub LabelMap : Type 0
LabelMap = List (Bytes × List Bytes)

-- `label_map.find(ip)`
unfoldable pub find_label : Bytes → LabelMap → Option (List Bytes)
find_label ip [] = none
find_label ip ((k, v) ∷ m) = if equal k ip then some v else find_label ip m

-- `label_map[ip] = v`
unfoldable pub put_label : Bytes → List Bytes → LabelMap → LabelMap
put_label ip v [] = (ip, v) ∷ []
put_label ip v ((k, w) ∷ m) = if equal k ip then (k, v) ∷ m else (k, w) ∷ put_label ip v m
