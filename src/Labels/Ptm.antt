-- ===== src/Labels/Ptm.antt =====
-- LoadLabelMapPreTagStyle. The file is the rows that rapidcsv reads, each with its cells; rapidcsv
-- throws where it cannot read the file.
pub mod SameAsCsv
use mathlib.Core.Option
use mdt_dialout_collector.Common.{
  ℕ, zero, suc, ◌+◌, ◌-◌, ◌%◌, Option, none, some, List, [], ◌∷◌, ◌++◌, length, take, drop,
  get_elem?, ltb, ◌==◌, if◌then◌else◌, Partial, done, thrown, bind, found_or, out_of_range,
  exit_failure, no_fuel, bad_index,
}
use mdt_dialout_collector.Common.Text.{Bytes, index_first, index_last, split_first}
use mdt_dialout_collector.Labels.{LabelMap}
use mdt_dialout_collector.Labels.Csv.{Columns, fill_map}

-- A `size_t` that is stored in an `unsigned`; `npos` is the largest `size_t`.
abbrev pub u32 : ℕ → ℕ
u32 n = n % 4294967296

abbrev npos : ℕ
npos = 18446744073709551615

abbrev size_of : Option ℕ → ℕ
size_of none = npos
size_of (some i) = i

-- `s.substr(start, count)`
abbrev substr : Bytes → ℕ → ℕ → Partial Bytes
substr s start count =
    if ltb (length s) start then thrown out_of_range else done (take count (drop start s))

-- `s.find("=") + 1`, in a `size_t` and then in an `unsigned`
abbrev start_delim : Bytes → ℕ
start_delim s = u32 ((size_of (index_first b'=' s) + 1) % 18446744073709551616)

-- the address: behind the first "=" and before the last "/"
unfoldable pub read_ip : Bytes → Partial Bytes
unfolding index_first index_last
read_ip s =
    let start = start_delim s in
    let stop = u32 (size_of (index_last b'/' s)) in substr s start (u32 (stop + 4294967296 - start))

-- the text of the label: behind the first "="
unfoldable pub read_label : Bytes → Partial Bytes
unfolding index_first
read_label s =
    let start = start_delim s in substr s start (u32 (u32 (length s) + 4294967296 - start))

-- The loop over the separators: the second token goes to `nid`, and what is left is returned.
unfoldable pub scan_label : ℕ → ℕ → Bytes → List Bytes → Partial (List Bytes × Bytes)
unfolding split_first
scan_label zero counter label nid = thrown no_fuel
scan_label (suc fuel) counter label nid = elim (split_first b'%' label) [
  | none ↦ done (nid, label)
  | some (token, rest) ↦
      scan_label fuel (counter + 1) rest (if counter == 1 then nid ++ (token ∷ []) else nid)
]

-- The first loop: the addresses, and the labels of the nodes and of the platforms. Each round of
-- `scan_label` shortens the label, so its length and one more is fuel enough.
unfoldable pub parse_rows : ℕ → List Bytes → List Bytes → Columns → Partial Columns
unfolding read_ip read_label scan_label
parse_rows idx [] labels acc = done acc
parse_rows idx (a ∷ addrs) labels (ips, nid, pid) = bind (read_ip a) λ ip.
    bind (found_or out_of_range (get_elem? labels idx)) λ l. bind (read_label l) λ label.
      bind (scan_label (length label + 1) 0 label nid)
        λ (nid', p). parse_rows (idx + 1) addrs labels (ips ++ (ip ∷ []), nid', pid ++ (p ∷ []))

-- `RemoveRow(GetRowCount())`. It erases the row behind the last one, `mData.erase(mData.end())`, which
-- C++ leaves undefined; std::vector of the GNU library then removes the last row, as the program means
-- it to. Where there is no row it is a fault.
abbrev pub remove_row : List (List Bytes) → Partial (List (List Bytes))
remove_row [] = thrown bad_index
remove_row (row ∷ []) = done []
remove_row (row ∷ next ∷ rows) = bind (remove_row (next ∷ rows)) λ rest. done (row ∷ rest)

-- `GetColumn<std::string>(i)`; what it throws for a row without such a cell is caught
abbrev pub get_column : ℕ → List (List Bytes) → Partial (List Bytes)
get_column i [] = done []
get_column i (row ∷ rows) =
    bind (found_or exit_failure (get_elem? row i))
      λ cell. bind (get_column i rows) λ cells. done (cell ∷ cells)

-- LoadLabelMapPreTagStyle, over the rows of the file
unfoldable pub load_label_map_pre_tag_style : Option (List (List Bytes)) → Partial LabelMap
unfolding parse_rows fill_map
load_label_map_pre_tag_style none = thrown exit_failure
load_label_map_pre_tag_style (some doc) = bind (remove_row doc) λ rows.
    bind (get_column 0 rows) λ labels. bind (get_column 1 rows) λ addrs.
      bind (parse_rows 0 addrs labels ([], [], [])) λ (ips, nid, pid). fill_map 0 ips nid pid []
