-- ===== src/Labels/Csv.antt =====
-- LoadLabelMap. The file is the three columns that rapidcsv reads; it throws where it cannot.
use mathlib.Core.List.{map, append_assoc}
use mdt_dialout_collector.Common.{
  ℕ, ◌+◌, ◌≤◌, ◌<◌, Option, none, some, List, [], ◌∷◌, ◌++◌, ◌≡◌, refl, ◌∙◌, arith, length,
  length-append, get_elem?, get_elem?-append, get_elem?-lt, if◌then◌else◌, Partial, done, thrown,
  bind, found_or, bad_index, exit_failure, Option-cases, inl, inr,
}
use mdt_dialout_collector.Common.Text.{Bytes, equal, equal_iff}
use mdt_dialout_collector.Labels.{LabelMap, find_label, put_label}

abbrev pub Columns : Type 0
Columns = List Bytes × List Bytes × List Bytes

-- the loop at the end, which both loaders have: `nid[idx]` and `pid[idx]` are not checked
unfoldable pub fill_map : ℕ → List Bytes → List Bytes → List Bytes → LabelMap → Partial LabelMap
fill_map idx [] nid pid m = done m
fill_map idx (ip ∷ ips) nid pid m = bind (found_or bad_index (get_elem? nid idx)) λ n.
    bind (found_or bad_index (get_elem? pid idx))
      λ p. fill_map (idx + 1) ips nid pid (put_label ip (n ∷ p ∷ []) m)

-- LoadLabelMap: `clear`, and a file that rapidcsv refuses ends the process
unfoldable pub load_label_map : Option Columns → Partial LabelMap
unfolding fill_map
load_label_map none = thrown exit_failure
load_label_map (some (ipaddrs, nid, pid)) = fill_map 0 ipaddrs nid pid []

-- A row of the file: the address of a router, and the two labels.
pub record Row : Type 0 where
  pub ip : Bytes
  pub nkey : Bytes
  pub pkey : Bytes

abbrev pub columns : List Row → Columns
columns rows =
    (map (λ (r : Row). r.ip) rows, map (λ (r : Row). r.nkey) rows, map (λ (r : Row). r.pkey) rows)

-- The labels that the last row of an address gives, or else those that were there.
abbrev pub labels_of : Bytes → List Row → Option (List Bytes) → Option (List Bytes)
labels_of ip [] old = old
labels_of ip (r ∷ rows) old =
    labels_of ip rows (if equal r.ip ip then some (r.nkey ∷ r.pkey ∷ []) else old)

pub find-put_label :
    (j k : Bytes) (v : List Bytes) (m : LabelMap)
    → find_label j (put_label k v m) ≡ (if equal k j then some v else find_label j m)
unfolding find_label put_label
find-put_label j k v [] = refl
find-put_label j k v ((i, w) ∷ m) =
    ground (arith, equal_iff k j, equal_iff i k, equal_iff i j, find-put_label j k v m)

-- The map that the rows make, one after the other.
unfoldable pub put_rows : List Row → LabelMap → LabelMap
put_rows [] m = m
put_rows (r ∷ rows) m = put_rows rows (put_label r.ip (r.nkey ∷ r.pkey ∷ []) m)

find-put_rows :
    (ip : Bytes) (rows : List Row) (m : LabelMap)
    → find_label ip (put_rows rows m) ≡ labels_of ip rows (find_label ip m)
unfolding put_rows
find-put_rows ip [] m = refl
find-put_rows ip (r ∷ rows) m =
    find-put_rows ip rows _ ∙ rw (find-put_label ip r.ip (r.nkey ∷ r.pkey ∷ []) m)

-- The loop reads the row at its index, behind the labels that it has read.
fill_map-put_rows :
    (rows : List Row) (ns ps : List Bytes) (m : LabelMap)
    → length ns ≡ length ps
    → fill_map (length ns) (columns rows).0 (ns ++ (columns rows).1) (ps ++ (columns rows).2) m
      ≡ done (put_rows rows m)
unfolding fill_map put_rows
fill_map-put_rows [] ns ps m h = refl
fill_map-put_rows (r ∷ rows) ns ps m h =
    rw
      (
        get_elem?-append ns (columns rows).1 r.nkey,
        h,
        get_elem?-append ps (columns rows).2 r.pkey,
        ← h,
      )
      (simp (length-append, append_assoc) at
        (fill_map-put_rows rows (ns ++ (r.nkey ∷ [])) (ps ++ (r.pkey ∷ []))
          (put_label r.ip (r.nkey ∷ r.pkey ∷ []) m)
          (omega (arith, length-append ns (r.nkey ∷ []), length-append ps (r.pkey ∷ [])))))

-- Where the file has three columns, loading it succeeds, and the map gives each address the two
-- labels of the last row that has it, and no labels to an address that no row has.
pub load_label_map-labels_of :
    (rows : List Row)
    → (m : LabelMap) × (load_label_map (some (columns rows)) ≡ done m)
      × ((ip : Bytes) → find_label ip m ≡ labels_of ip rows none)
unfolding load_label_map find_label
load_label_map-labels_of rows =
    (put_rows rows [], fill_map-put_rows rows [] [] [] refl, λ ip. find-put_rows ip rows [])

-- Where the labels of the nodes run out before the addresses do, the loop reads behind their end.
pub fill_map_short :
    (ips : List Bytes) (idx : ℕ) (nid pid : List Bytes) (m : LabelMap)
    → length nid < idx + length ips
    → idx ≤ length nid
    → fill_map idx ips nid pid m ≡ thrown bad_index
unfolding fill_map
fill_map_short [] idx nid pid m few lo = absurd (omega arith)
fill_map_short (ip ∷ ips) idx nid pid m few lo = elim (Option-cases (get_elem? nid idx)) [
  | inl out ↦ rw out
  | inr (n, found) ↦ rw found (elim (Option-cases (get_elem? pid idx)) [
    | inl out ↦ rw out
    | inr (p, there) ↦ rw there (
        let within = get_elem?-lt nid idx found in
        fill_map_short ips (idx + 1) nid pid _ (omega arith) (omega arith))
  ])
]
