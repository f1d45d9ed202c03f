-- ===== src/Payload/Juniper.antt =====
-- JuniperExtension and JuniperUpdate, over the messages of proto/Juniper/juniper_gnmi.proto, whose
-- PathElem is that of Nokia's.
pub mod Header
pub mod Values
pub mod Nested
pub mod Filled
pub mod Metrics
pub mod Tags
use mathlib.Core.List.{map}
use mdt_dialout_collector.Common.{
  ℕ, Bool, true, false, not, ◌==◌, Option, none, some, List, [], ◌∷◌, ◌++◌, if◌then◌else◌, Partial,
  done, bind,
}
use mdt_dialout_collector.Common.Number.{ℤ, u64_of}
use mdt_dialout_collector.Common.Text.{Bytes, codes, is_empty}
use mdt_dialout_collector.Json.{Jsoncpp, read_json, or_text}
use mdt_dialout_collector.Payload.Nokia.{PathElem, path_element}

-- TypedValue; `other_val` stands for the cases of the oneof that the program does not read, and for
-- none of them
pub data TypedValue (Real : Type 0) : Type 0 where
  int_val : ℤ → TypedValue Real
  uint_val : ℕ → TypedValue Real
  string_val : Bytes → TypedValue Real
  bool_val : Bool → TypedValue Real
  float_val : Real → TypedValue Real
  json_val : Bytes → TypedValue Real
  json_ietf_val : Bytes → TypedValue Real
  bytes_val : Bytes → TypedValue Real
  ascii_val : Bytes → TypedValue Real
  other_val : TypedValue Real

-- Update, as far as the program reads it
pub record JuniperUpdate (Real : Type 0) : Type 0 where
  pub path : List PathElem
  pub val : TypedValue Real

-- Notification, with an `int64 timestamp`
pub record JuniperNotification (Real : Type 0) : Type 0 where
  pub timestamp : ℤ
  pub prefix : List PathElem
  pub update : List (JuniperUpdate Real)

-- Extension: a registered one with its id, or another
pub data Extension : Type 0 where
  registered_ext : ℕ → Bytes → Extension
  other_ext : Extension

-- What protobuf makes of the header extension: `ParseFromString` into it, none where it fails, its
-- field `system_id`, and `MessageToJsonString`, none where its status is not ok.
pub record HeaderExtension : Type 1 where
  pub Header : Type 0
  pub parse_from_string : Bytes → Option Header
  pub system_id : Header → Bytes
  pub message_to_json_string : Header → Option Bytes

-- EID_JUNIPER_TELEMETRY_HEADER
abbrev pub telemetry_header_id : ℕ
telemetry_header_id = 1

module _ (J : Jsoncpp) (H : HeaderExtension) where
  abbrev pub with_system_id : Bytes → J.Value → J.Value
  with_system_id system_id root =
      if not (is_empty system_id)
      then J.set root (codes "system_id") (J.of_string system_id)
      else root

  -- the text of the extension, as JSON where it is. The header is a flat message, so that its text is
  -- not nested and the reader does not throw.
  abbrev pub with_extension : Bytes → J.Value → J.Value
  with_extension text root = J.set root (codes "extension") (or_text J text (J.parse text))

  -- JuniperExtension, with the root that it leaves
  unfoldable pub juniper_extension : List Extension → J.Value → Bool × J.Value
  juniper_extension [] root = (true, root)
  juniper_extension (other_ext ∷ exts) root = juniper_extension exts root
  juniper_extension (registered_ext id msg ∷ exts) root = elim (id == telemetry_header_id) [
    | false ↦ juniper_extension exts root
    | true ↦ elim (H.parse_from_string msg) [
      | none ↦ (false, root)
      | some header ↦ elim (H.message_to_json_string header) [
        | none ↦ (false, with_system_id (H.system_id header) root)
        | some text ↦
            juniper_extension exts (with_extension text (with_system_id (H.system_id header) root))
      ]
    ]
  ]

module _ (J : Jsoncpp) where
  -- `tags[elem_name + "_" + key] = value`, for the keys of one element
  unfoldable pub add_tags : Bytes → List (Bytes × Bytes) → J.Value → J.Value
  add_tags elem_name [] tags = tags
  add_tags elem_name ((key, value) ∷ keys) tags =
      add_tags elem_name keys (J.set tags (elem_name ++ (codes "_" ++ key)) (J.of_string value))

  -- the loop over the prefix, with `sensor_path` and `tags`
  unfoldable pub read_prefix : List PathElem → J.Value → J.Value → J.Value × J.Value
  unfolding path_element add_tags
  read_prefix [] sensor_path tags = (sensor_path, tags)
  read_prefix (e ∷ elems) sensor_path tags =
      read_prefix elems (J.append sensor_path (path_element J e)) (add_tags e.name e.key tags)

  -- a text that is JSON is nested, any other is a text; nothing catches the exception of the reader
  abbrev pub json_or_text : Bytes → Partial J.Value
  json_or_text raw_json = bind (read_json J raw_json) λ read. done (or_text J raw_json read)

  -- the value of an update
  unfoldable pub typed_value : TypedValue J.Real → Partial J.Value
  typed_value (int_val n) = done (J.of_int n)
  typed_value (uint_val n) = done (J.of_uint n)
  typed_value (string_val s) = done (J.of_string s)
  typed_value (bool_val b) = done (J.of_bool b)
  typed_value (float_val x) = done (J.of_real x)
  typed_value (json_val s) = json_or_text s
  typed_value (json_ietf_val s) = json_or_text s
  typed_value (bytes_val s) = done (J.of_string s)
  typed_value (ascii_val s) = done (J.of_string s)
  typed_value other_val = done (J.of_string (codes "unsupported_type"))

  -- `node_name`, with the keys behind the name
  unfoldable pub node_name : Bytes → List (Bytes × Bytes) → Bytes
  node_name name [] = name
  node_name name ((k, v) ∷ keys) =
      node_name (name ++ (codes "[" ++ (k ++ (codes "=" ++ (v ++ codes "]"))))) keys

  abbrev pub node_names : List PathElem → List Bytes
  node_names path = map (λ (e : PathElem). node_name e.name e.key) path

  -- the object under a name, and a new one where there is none
  abbrev pub child_object : J.Value → Bytes → J.Value
  child_object node name = elim (J.member? node name) [
    | none ↦ J.object
    | some child ↦ if J.is_object child then child else J.object
  ]

  -- the loop over the elements of a path, from `current_node`: that node with the value in it
  unfoldable pub place : List Bytes → J.Value → J.Value → J.Value
  place [] value node = node
  place (name ∷ []) value node = J.set node name value
  place (name ∷ next ∷ names) value node =
      J.set node name (place (next ∷ names) value (child_object node name))

  -- the loop over the updates
  unfoldable pub place_updates : List (JuniperUpdate J.Real) → J.Value → Partial J.Value
  unfolding typed_value node_name place
  place_updates [] metrics = done metrics
  place_updates (u ∷ updates) metrics =
      bind (typed_value u.val)
        λ value. place_updates updates (place (node_names u.path) value metrics)

  -- `if (!v.empty()) { root[key] = v; }`
  abbrev pub set_filled : Bytes → J.Value → J.Value → J.Value
  set_filled key v root = if not (J.is_empty v) then J.set root key v else root

  -- what is made of a notification
  abbrev pub juniper_root : JuniperNotification J.Real → J.Value → Partial J.Value
  juniper_root n root =
      let (sensor_path, tags) = read_prefix n.prefix J.array J.object in
      bind (place_updates n.update J.object) λ metrics. done (
        set_filled (codes "metrics") metrics (
          set_filled (codes "tags") tags (
            J.set (J.set root (codes "sensor_path") sensor_path) (codes "notification_timestamp")
              (J.of_uint (u64_of n.timestamp)))))

  -- JuniperUpdate, which returns true where it returns; none is a response without an update
  unfoldable pub juniper_update : Option (JuniperNotification J.Real) → J.Value → Partial Bytes
  unfolding read_prefix place_updates
  juniper_update none root = done (J.write root)
  juniper_update (some n) root = bind (juniper_root n root) λ final. done (J.write final)
