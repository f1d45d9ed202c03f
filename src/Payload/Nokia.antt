-- ===== src/Payload/Nokia.antt =====
-- NokiaUpdate, over the messages of proto/Nokia/nokia_gnmi.proto.
pub mod Members
use mathlib.Core.List.{map}
use mdt_dialout_collector.Common.{
  ℕ, Bool, true, false, not, Option, none, some, List, [], ◌∷◌, ◌++◌, if◌then◌else◌,
}
use mdt_dialout_collector.Common.Number.{ℤ, u64_of}
use mdt_dialout_collector.Common.Text.{Bytes, codes}
use mdt_dialout_collector.Json.{Jsoncpp}
use mdt_dialout_collector.Json.Assign.{assign}

-- PathElem
pub record PathElem : Type 0 where
  pub name : Bytes
  pub key : List (Bytes × Bytes)

-- Update, as far as the program reads it
pub record Update : Type 0 where
  pub path : List PathElem
  pub json_ietf_val : Bytes

-- Notification, with an `int64 timestamp`
pub record Notification : Type 0 where
  pub timestamp : ℤ
  pub prefix : List PathElem
  pub update : List Update

-- "/" before each name
unfoldable pub slashed : List PathElem → Bytes
slashed [] = []
slashed (e ∷ elems) = codes "/" ++ (e.name ++ slashed elems)

module _ (J : Jsoncpp) where
  abbrev pub no_keys : List (Bytes × Bytes) → Bool
  no_keys [] = true
  no_keys (_ ∷ _) = false

  abbrev pub filters : List (Bytes × Bytes) → J.Value
  filters key = assign J (map (λ (kv : Bytes × Bytes). (kv.0, J.of_string kv.1)) key) J.null

  -- `path_element`
  unfoldable pub path_element : PathElem → J.Value
  path_element e =
      let named = J.set J.null (codes "name") (J.of_string e.name) in
      if not (no_keys e.key) then J.set named (codes "filters") (filters e.key) else named

  -- the loop over the prefix
  unfoldable pub sensor_path : List PathElem → J.Value → J.Value
  unfolding path_element
  sensor_path [] v = v
  sensor_path (e ∷ elems) v = sensor_path elems (J.append v (path_element e))

  -- the loop over the elements of `sensor_path`
  unfoldable pub collected_path : List J.Value → Bytes → Bytes
  collected_path [] path = path
  collected_path (element ∷ elements) path =
      collected_path elements (elim (J.member? element (codes "name")) [
        | none ↦ path
        | some name ↦ path ++ (codes "/" ++ J.as_string name)
      ])

  -- the loop over the updates
  abbrev pub updated : List Update → List (Bytes × J.Value)
  updated updates = map (λ (u : Update). (slashed u.path, J.of_string u.json_ietf_val)) updates

  abbrev pub notified : Notification → List (Bytes × J.Value)
  notified n =
      let path = sensor_path n.prefix J.array in
      (codes "collected_path", J.of_string (collected_path (J.items path) []))
      ∷ (codes "sensor_path", path)
      ∷ (codes "notification_timestamp", J.of_uint (u64_of n.timestamp))
      ∷ updated n.update

  -- NokiaUpdate, which always succeeds; none is a response without an update
  unfoldable pub nokia_update : Option Notification → J.Value → Bytes
  unfolding sensor_path collected_path
  nokia_update none root = J.write root
  nokia_update (some n) root = J.write (assign J (notified n) root)
