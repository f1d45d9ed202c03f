-- ===== src/Json/Tree.antt =====
-- A tree of values that meets the assumptions on jsoncpp; it serves the instances of the theorems.
-- Its reader knows one text and its writer is not the library's.
use mathlib.Core.Path.{◌≡◌, refl}
use mdt_dialout_collector.Common.{arith}
use mdt_dialout_collector.Common.{
  ℕ, Bool, true, false, Option, none, some, List, [], ◌∷◌, ◌++◌, if◌then◌else◌,
}
use mdt_dialout_collector.Common.Number.{ℤ}
use mdt_dialout_collector.Common.Text.{Bytes, codes, equal, is_empty}
use mdt_dialout_collector.Json.{Jsoncpp, IsLawful}

mutual
  pub data Tree : Type 0 where
    null : Tree
    bool : Bool → Tree
    uint : ℕ → Tree
    int : ℤ → Tree
    str : Bytes → Tree
    arr : Items → Tree
    obj : Members → Tree

  pub data Items : Type 0 where
    nil : Items
    cons : Tree → Items → Items

  pub data Members : Type 0 where
    end : Members
    entry : Bytes → Tree → Members → Members

abbrev pub find_member : Members → Bytes → Option Tree
find_member end key = none
find_member (entry k v m) key = if equal k key then some v else find_member m key

abbrev pub put_member : Members → Bytes → Tree → Members
put_member m key x = entry key x m

abbrev pub add_item : Items → Tree → Items
add_item nil x = cons x nil
add_item (cons y ys) x = cons y (add_item ys x)

abbrev pub list_items : Items → List Tree
list_items nil = []
list_items (cons x xs) = x ∷ list_items xs

abbrev members : Tree → Members
members (obj m) = m
members _ = end

abbrev elements : Tree → Items
elements (arr xs) = xs
elements _ = nil

abbrev null? : Tree → Bool
null? null = true
null? _ = false

abbrev object? : Tree → Bool
object? (obj _) = true
object? _ = false

abbrev array? : Tree → Bool
array? (arr _) = true
array? _ = false

abbrev empty? : Tree → Bool
empty? null = true
empty? (arr nil) = true
empty? (obj end) = true
empty? _ = false

abbrev text_of : Tree → Bytes
text_of (str s) = s
text_of _ = []

-- The writer marks the kind of the value, and writes texts behind a quotation mark.
abbrev written : Tree → Bytes
written (str s) = b'"' ∷ s
written (obj _) = codes "{}"
written _ = codes "0"

abbrev pub tree_json : Jsoncpp
tree_json = record {
  Value = Tree;
  Real = ℕ;
  null = null;
  object = obj end;
  array = arr nil;
  of_string = str;
  of_bool = bool;
  of_uint = uint;
  of_int = int;
  of_real = uint;
  is_null = null?;
  is_object = object?;
  is_array = array?;
  is_empty = empty?;
  member? = λ v key. find_member (members v) key;
  set = λ v key x. obj (put_member (members v) key x);
  items = λ v. list_items (elements v);
  append = λ v x. arr (add_item (elements v) x);
  as_string = text_of;
  too_deep = λ s. equal s (codes "[[");
  parse = λ s. if equal s (codes "{}") then some (obj end) else none;
  write = written;
}

list_items-add_item :
    (xs : Items) (x : Tree) → list_items (add_item xs x) ≡ list_items xs ++ (x ∷ [])
list_items-add_item nil x = refl
list_items-add_item (cons y ys) x = rw (list_items-add_item ys x)

empty-add_item : (xs : Items) (x : Tree) → empty? (arr (add_item xs x)) ≡ false
empty-add_item nil x = refl
empty-add_item (cons y ys) x = refl

written_not_empty : (v : Tree) → is_empty (written v) ≡ false
written_not_empty v = ground arith

pub tree_json-IsLawful : IsLawful tree_json
tree_json-IsLawful = record {
  null_is_null = refl;
  object_is_object = refl;
  array_is_array = refl;
  member-null = λ key. refl;
  member-object = λ key. refl;
  items-null = refl;
  items-array = refl;
  member-set = λ v key x j h. refl;
  set_is_object = λ v key x h. refl;
  items-append = λ v x h. list_items-add_item (elements v) x;
  append_is_array = λ v x h. refl;
  as_string-of_string = λ s. refl;
  empty-null = refl;
  empty-object = refl;
  empty-set = λ v key x h. refl;
  empty-append = λ v x h. empty-add_item (elements v) x;
  write_not_empty = written_not_empty;
}
