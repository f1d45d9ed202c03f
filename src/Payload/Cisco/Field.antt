-- ===== src/Payload/Cisco/Field.antt =====
-- What the JSON of a Cisco field holds.
use mathlib.Core.List.{append_assoc, append-nil}
use mdt_dialout_collector.Common.{true, List, [], ◌∷◌, ◌++◌, ◌≡◌, refl, sym, ◌∙◌, ap, arith}
use mdt_dialout_collector.Json.{Jsoncpp, IsLawful, takes_items}
use mdt_dialout_collector.Payload.Cisco.{
  TelemetryField, TelemetryFields, end, more, field_name, named, cisco_gpbkv_field2json,
  cisco_sub_fields,
}

module _ (J : Jsoncpp) (L : IsLawful J) where
  -- The fields below, each under its name, in their order.
  abbrev pub children : TelemetryFields J.Real → List J.Value
  children end = []
  children (more f fields) = named J (field_name f) (cisco_gpbkv_field2json J f) ∷ children fields

  cisco_sub_fields-end : (v : J.Value) → cisco_sub_fields J end v ≡ v
  unfolding cisco_gpbkv_field2json
  cisco_sub_fields-end v = refl

  cisco_sub_fields-more :
      (f : TelemetryField J.Real) (fields : TelemetryFields J.Real) (v : J.Value)
      → cisco_sub_fields J (more f fields) v
        ≡ cisco_sub_fields J fields
            (J.append v (named J (field_name f) (cisco_gpbkv_field2json J f)))
  unfolding cisco_gpbkv_field2json
  cisco_sub_fields-more f fields v = refl

  takes_items-append :
      (v x : J.Value) → takes_items J v ≡ true → takes_items J (J.append v x) ≡ true
  takes_items-append v x h = ground (arith, L.append_is_array v x h)

  -- The loop appends one element for each field, in their order.
  pub items-cisco_sub_fields :
      (fields : TelemetryFields J.Real) (v : J.Value)
      → takes_items J v ≡ true
      → J.items (cisco_sub_fields J fields v) ≡ J.items v ++ children fields
  items-cisco_sub_fields end v h =
      ap J.items (cisco_sub_fields-end v) ∙ sym (append-nil (J.items v))
  items-cisco_sub_fields (more f fields) v h =
      let x = named J (field_name f) (cisco_gpbkv_field2json J f) in
      ap J.items (cisco_sub_fields-more f fields v)
      ∙ items-cisco_sub_fields fields (J.append v x) (takes_items-append v x h)
      ∙ rw (L.items-append v x h, append_assoc (J.items v) (x ∷ []) (children fields))
