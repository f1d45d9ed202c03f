-- ===== src/Payload/Juniper/Values.antt =====
-- What the updates of a notification are read as, told apart from how JuniperUpdate reads them.
use mathlib.Core.List.{append_assoc, append-nil}
use mdt_dialout_collector.Common.{
  Bool, true, false, not, ◌&&◌, Option, none, some, List, [], ◌∷◌, ◌++◌, ◌≡◌, refl, sym, ◌∙◌, arith,
  Option-cases, inl, inr, done,
}
use mdt_dialout_collector.Common.Number.{u64_of}
use mdt_dialout_collector.Common.Text.{Bytes, codes}
use mdt_dialout_collector.Json.{Jsoncpp}
use mdt_dialout_collector.Payload.Nokia.{PathElem}
use mdt_dialout_collector.Payload.Juniper.{
  TypedValue, int_val, uint_val, string_val, bool_val, float_val, json_val, json_ietf_val,
  bytes_val, ascii_val, other_val, JuniperUpdate, JuniperNotification, read_prefix, json_or_text,
  typed_value, node_name, node_names, place, place_updates, set_filled, juniper_update,
}

-- The keys of an element in brackets, each with its value.
abbrev pub brackets : List (Bytes × Bytes) → Bytes
brackets [] = []
brackets ((key, value) ∷ keys) =
    (codes "[" ++ (key ++ (codes "=" ++ (value ++ codes "]")))) ++ brackets keys

-- The names of a path: those of its elements, with the keys behind.
abbrev pub path_names : List PathElem → List Bytes
path_names [] = []
path_names (e ∷ path) = (e.name ++ brackets e.key) ∷ path_names path

module _ (J : Jsoncpp) where
  node_name-brackets :
      (name : Bytes) (keys : List (Bytes × Bytes)) → node_name J name keys ≡ name ++ brackets keys
  unfolding node_name
  node_name-brackets name [] = sym (append-nil name)
  node_name-brackets name ((k, v) ∷ keys) =
      let one = codes "[" ++ (k ++ (codes "=" ++ (v ++ codes "]"))) in
      node_name-brackets (name ++ one) keys ∙ append_assoc name one (brackets keys)

  pub node_names-path_names : (path : List PathElem) → node_names J path ≡ path_names path
  node_names-path_names [] = refl
  node_names-path_names (e ∷ path) =
      rw (node_name-brackets e.name e.key, node_names-path_names path) refl

  -- A text that is JSON as the value that it is, any other as a text.
  abbrev pub nested : Bytes → J.Value
  nested text = elim (J.parse text) [ some v ↦ v | none ↦ J.of_string text ]

  -- The value of an update as JSON: a number, a truth value, a text, or what a JSON text holds.
  abbrev pub json_of : TypedValue J.Real → J.Value
  json_of (int_val n) = J.of_int n
  json_of (uint_val n) = J.of_uint n
  json_of (string_val s) = J.of_string s
  json_of (bool_val b) = J.of_bool b
  json_of (float_val x) = J.of_real x
  json_of (json_val s) = nested s
  json_of (json_ietf_val s) = nested s
  json_of (bytes_val s) = J.of_string s
  json_of (ascii_val s) = J.of_string s
  json_of other_val = J.of_string (codes "unsupported_type")

  -- jsoncpp's reader does not throw for the value.
  abbrev pub is_shallow : TypedValue J.Real → Bool
  is_shallow (int_val n) = true
  is_shallow (uint_val n) = true
  is_shallow (string_val s) = true
  is_shallow (bool_val b) = true
  is_shallow (float_val x) = true
  is_shallow (json_val s) = not (J.too_deep s)
  is_shallow (json_ietf_val s) = not (J.too_deep s)
  is_shallow (bytes_val s) = true
  is_shallow (ascii_val s) = true
  is_shallow other_val = true

  abbrev pub all_shallow : List (JuniperUpdate J.Real) → Bool
  all_shallow [] = true
  all_shallow (u ∷ updates) = let rest = all_shallow updates in is_shallow u.val && rest

  json_or_text-nested :
      (text : Bytes) → not (J.too_deep text) ≡ true → json_or_text J text ≡ done (nested text)
  json_or_text-nested text shallow =
      let even : J.too_deep text ≡ false = ground arith in
      elim (Option-cases (J.parse text)) [
        | inl unread ↦ rw (even, unread, nested) refl
        | inr (v, read) ↦ rw (even, read, nested) refl
      ]

  typed_value-json_of :
      (v : TypedValue J.Real) → is_shallow v ≡ true → typed_value J v ≡ done (json_of v)
  unfolding typed_value
  typed_value-json_of (int_val n) h = refl
  typed_value-json_of (uint_val n) h = refl
  typed_value-json_of (string_val s) h = refl
  typed_value-json_of (bool_val b) h = refl
  typed_value-json_of (float_val x) h = refl
  typed_value-json_of (json_val s) h = json_or_text-nested s h
  typed_value-json_of (json_ietf_val s) h = json_or_text-nested s h
  typed_value-json_of (bytes_val s) h = refl
  typed_value-json_of (ascii_val s) h = refl
  typed_value-json_of other_val h = refl

  -- The values of the updates under their paths, one after the other.
  unfoldable pub place_all : List (JuniperUpdate J.Real) → J.Value → J.Value
  place_all [] metrics = metrics
  place_all (u ∷ updates) metrics =
      place_all updates (place J (path_names u.path) (json_of u.val) metrics)

  place_updates-place_all :
      (updates : List (JuniperUpdate J.Real)) (metrics : J.Value)
      → all_shallow updates ≡ true
      → place_updates J updates metrics ≡ done (place_all updates metrics)
  unfolding place_updates place_all
  place_updates-place_all [] metrics h = refl
  place_updates-place_all (u ∷ updates) metrics h =
      let one : is_shallow u.val ≡ true = ground arith in
      let rest : all_shallow updates ≡ true = ground arith in
      rw (typed_value-json_of u.val one, node_names-path_names u.path)
        (place_updates-place_all updates (place J (path_names u.path) (json_of u.val) metrics) rest)

  -- What is made of a notification whose values can be read.
  abbrev pub notification_json : JuniperNotification J.Real → J.Value → J.Value
  notification_json n root =
      let (sensor_path, tags) = read_prefix J n.prefix J.array J.object in
      set_filled J (codes "metrics") (place_all n.update J.object) (
        set_filled J (codes "tags") tags (
          J.set (J.set root (codes "sensor_path") sensor_path) (codes "notification_timestamp")
            (J.of_uint (u64_of n.timestamp))))

  abbrev pub juniper_json : Option (JuniperNotification J.Real) → J.Value → Bytes
  juniper_json none root = J.write root
  juniper_json (some n) root = J.write (notification_json n root)

  pub juniper_update-none : (root : J.Value) → juniper_update J none root ≡ done (J.write root)
  unfolding juniper_update
  juniper_update-none root = refl

  pub juniper_update-juniper_json :
      (n : JuniperNotification J.Real) (root : J.Value)
      → all_shallow n.update ≡ true
      → juniper_update J (some n) root ≡ done (J.write (notification_json n root))
  unfolding juniper_update
  juniper_update-juniper_json n root h = rw (place_updates-place_all n.update J.object h) refl
