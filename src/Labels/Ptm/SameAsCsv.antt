-- ===== src/Labels/Ptm/SameAsCsv.antt =====
-- A pretag map whose rows are well formed gives the map that the CSV file of its rows gives.
use mathlib.Core.List.{map, append_assoc, append-nil}
use mdt_dialout_collector.Common.{
  ℕ, zero, suc, ◌+◌, ◌-◌, ◌<◌, false, some, List, [], ◌∷◌, ◌++◌, ◌≡◌, refl, inl, inr, arith, length,
  length-append, take-append, take-length, get_elem?-append, All, done, Option-cases,
}
use mdt_dialout_collector.Common.Text.{Bytes, codes, split_first, has}
use mdt_dialout_collector.Common.Text.Split.{
  split_first-append, split_first-eq_none, split_first_sound, index_last-append,
}
use mdt_dialout_collector.Labels.Csv.{Row, columns, load_label_map}
use mdt_dialout_collector.Labels.Ptm.{
  read_ip, read_label, scan_label, parse_rows, remove_row, get_column, load_label_map_pre_tag_style,
}

-- A row of a pretag map: "set_label=nkey%<nkey>%pkey%<pkey> ip=<ip>/<mask>".
pub record PtmRow : Type 0 where
  pub row : Row
  pub mask : Bytes

abbrev pub label_text : Row → Bytes
label_text r = codes "nkey%" ++ (r.nkey ++ (codes "%pkey%" ++ r.pkey))

abbrev pub label_of : PtmRow → Bytes
label_of p = codes "set_label=" ++ label_text p.row

abbrev pub address_of : PtmRow → Bytes
address_of p = codes "ip=" ++ (p.row.ip ++ (b'/' ∷ p.mask))

-- No label holds a separator, the mask holds no slash, and the texts are shorter than an unsigned.
pub record IsWellFormed (p : PtmRow) : Type 0 where
  pub nkey_plain : has b'%' p.row.nkey ≡ false
  pub pkey_plain : has b'%' p.row.pkey ≡ false
  pub mask_plain : has b'/' p.mask ≡ false
  pub label_short : length (label_of p) < 4294967296
  pub address_short : length (address_of p) < 4294967296

-- Fuel that is enough: every round takes a separator away.
pub scan_label_total :
    (fuel counter : ℕ) (label : Bytes) (nid : List Bytes)
    → length label < fuel
    → (r : List Bytes × Bytes) × (scan_label fuel counter label nid ≡ done r)
unfolding scan_label
scan_label_total zero counter label nid h = absurd (omega arith)
scan_label_total (suc fuel) counter label nid h = elim (Option-cases (split_first b'%' label)) [
  | inl stops ↦ ((nid, label), ground arith)
  | inr ((token, rest), found) ↦
      rw (found, scan_label)
        (scan_label_total fuel (counter + 1) rest _
          (ground (arith, split_first_sound b'%' label found, length-append token (b'%' ∷ rest))))
]

read_ip-address_of :
    (ip mask : Bytes)
    → has b'/' mask ≡ false
    → length (codes "ip=" ++ (ip ++ (b'/' ∷ mask))) < 4294967296
    → read_ip (codes "ip=" ++ (ip ++ (b'/' ∷ mask))) ≡ done ip
unfolding read_ip
read_ip-address_of ip mask plain short =
    rw (index_last-append b'/' (codes "ip=" ++ ip) mask plain, read_ip)
      (ground (arith, length-append ip (b'/' ∷ mask), take-append ip (b'/' ∷ mask)))

read_label-label_of :
    (text : Bytes)
    → length (codes "set_label=" ++ text) < 4294967296
    → read_label (codes "set_label=" ++ text) ≡ done text
unfolding read_label
read_label-label_of text short = ground (arith, take-length text)

-- The loop over the tokens of a label that has three separators, with fuel that is enough.
scan_label_four :
    (f : ℕ) (r : Row) (nid : List Bytes)
    → has b'%' r.nkey ≡ false
    → has b'%' r.pkey ≡ false
    → scan_label (suc (suc (suc (suc f)))) 0 (label_text r) nid
      ≡ done (nid ++ (r.nkey ∷ []), r.pkey)
unfolding scan_label split_first
scan_label_four f r nid n p =
    rw (split_first-append b'%' r.nkey (codes "pkey%" ++ r.pkey) n, scan_label)
      (rw (split_first-eq_none b'%' r.pkey p, scan_label))

scan_label-label_text :
    (r : Row) (nid : List Bytes)
    → has b'%' r.nkey ≡ false
    → has b'%' r.pkey ≡ false
    → scan_label (length (label_text r) + 1) 0 (label_text r) nid
      ≡ done (nid ++ (r.nkey ∷ []), r.pkey)
scan_label-label_text r nid n p =
    let e : length (label_text r) + 1 ≡ suc (suc (suc (suc (length (label_text r) - 3)))) =
      omega arith in
    rw e (scan_label_four (length (label_text r) - 3) r nid n p)

abbrev rows_of : List PtmRow → List Row
rows_of = map (λ (p : PtmRow). p.row)

-- The first loop reads the row at its index, behind the rows that it has read.
parse_rows-columns :
    (ps : List PtmRow) (ls ips nid pid : List Bytes)
    → All IsWellFormed ps
    → parse_rows (length ls) (map address_of ps) (ls ++ map label_of ps) (ips, nid, pid)
      ≡ done (
        ips ++ (columns (rows_of ps)).0,
        nid ++ (columns (rows_of ps)).1,
        pid ++ (columns (rows_of ps)).2,
      )
unfolding parse_rows
parse_rows-columns [] ls ips nid pid _ = simp append-nil
parse_rows-columns (p ∷ ps) ls ips nid pid (ok, oks) =
    rw
      (
        read_ip-address_of p.row.ip p.mask ok.mask_plain ok.address_short,
        get_elem?-append ls (map label_of ps) (label_of p),
      )
      (rw (read_label-label_of (label_text p.row) ok.label_short) (
        rw (scan_label-label_text p.row nid ok.nkey_plain ok.pkey_plain) (
          simp (length-append, append_assoc) at
            (parse_rows-columns ps (ls ++ (label_of p ∷ [])) (ips ++ (p.row.ip ∷ []))
              (nid ++ (p.row.nkey ∷ [])) (pid ++ (p.row.pkey ∷ [])) oks))))

-- The cells of a row.
abbrev pub cells_of : PtmRow → List Bytes
cells_of p = label_of p ∷ address_of p ∷ []

remove_row-snoc :
    (rows : List (List Bytes)) (last : List Bytes) → remove_row (rows ++ (last ∷ [])) ≡ done rows
remove_row-snoc [] last = refl
remove_row-snoc (row ∷ []) last = refl
remove_row-snoc (row ∷ next ∷ rows) last = rw (remove_row-snoc (next ∷ rows) last) refl

get_column-label_of : (ps : List PtmRow) → get_column 0 (map cells_of ps) ≡ done (map label_of ps)
get_column-label_of [] = refl
get_column-label_of (p ∷ ps) = rw (get_column-label_of ps) refl

get_column-address_of :
    (ps : List PtmRow) → get_column 1 (map cells_of ps) ≡ done (map address_of ps)
get_column-address_of [] = refl
get_column-address_of (p ∷ ps) = rw (get_column-address_of ps) refl

-- A pretag map with one more row at its end, whatever that row holds, gives the map that the CSV file
-- of the addresses and labels of the rows before it gives, if in these no label holds a separator, no
-- mask holds a slash, and the texts are shorter than an unsigned. The last row is lost in any case:
-- it has to be a sentinel.
pub load_label_map_pre_tag_style-load_label_map :
    (ps : List PtmRow) (last : List Bytes)
    → All IsWellFormed ps
    → load_label_map_pre_tag_style (some (map cells_of ps ++ (last ∷ [])))
      ≡ load_label_map (some (columns (map (λ (p : PtmRow). p.row) ps)))
unfolding load_label_map_pre_tag_style load_label_map
load_label_map_pre_tag_style-load_label_map ps last oks =
    rw
      (
        remove_row-snoc (map cells_of ps) last,
        get_column-label_of ps,
        get_column-address_of ps,
        parse_rows-columns ps [] [] [] [] oks,
      )
      refl
