-- ===== src/Payload/Huawei/Rows.antt =====
-- The rows in the JSON of a Huawei message.
use mathlib.Core.List.{map, append_assoc}
use mdt_dialout_collector.Common.{
  true, Option, some, List, [], ◌∷◌, ◌++◌, ◌≡◌, refl, ◌∙◌, ap, arith, All,
}
use mdt_dialout_collector.Common.Text.{Bytes, codes, equal, equal_refl}
use mdt_dialout_collector.Json.{Jsoncpp, IsLawful, takes_members, takes_items}
use mdt_dialout_collector.Json.Assign.{
  assign, member-assign_null, takes_members-set, takes_members-null, takes_members-assign,
}
use mdt_dialout_collector.Payload.Huawei.{
  HuaweiTelemetry, huawei_header, decoded_of, add_decoded, decode_rows,
  huawei_gpb_openconfig_interface,
}

module _ (J : Jsoncpp) (L : IsLawful J) (decode : Bytes → Option Bytes) where
  -- A root that takes members and whose decoded rows are these.
  abbrev Holds : J.Value → List J.Value → Type 0
  Holds root vs =
      (takes_members J root ≡ true)
      × (takes_items J (decoded_of J decode root) ≡ true)
      × (J.items (decoded_of J decode root) ≡ vs)

  decoded_of_found :
      (root v : J.Value) → J.member? root (codes "decoded") ≡ some v → decoded_of J decode root ≡ v
  decoded_of_found root v h = ground arith

  decoded-add_decoded :
      (text : Bytes) (root : J.Value)
      → takes_members J root ≡ true
      → decoded_of J decode (add_decoded J decode text root)
        ≡ J.append (decoded_of J decode root) (J.of_string text)
  decoded-add_decoded text root h =
      let v = J.append (decoded_of J decode root) (J.of_string text) in
      decoded_of_found (add_decoded J decode text root) v (
        L.member-set root (codes "decoded") v (codes "decoded") h
        ∙ rw (equal_refl (codes "decoded")) refl)

  add_decoded-Holds :
      (text : Bytes) (root : J.Value) (vs : List J.Value)
      → Holds root vs
      → Holds (add_decoded J decode text root) (vs ++ (J.of_string text ∷ []))
  add_decoded-Holds text root vs (members, items, same) =
      let d = decoded-add_decoded text root members in
      (
        takes_members-set J L root (codes "decoded") _ members,
        rw d
            (ground (arith, L.append_is_array (decoded_of J decode root) (J.of_string text) items)),
        rw (d, L.items-append (decoded_of J decode root) (J.of_string text) items, same) refl,
      )

  -- A row with the text that protobuf makes of it.
  abbrev pub IsDecoded : Bytes × Bytes → Type 0
  IsDecoded (content, text) = decode content ≡ some text

  decode_rows-Holds :
      (p : Bytes × Bytes) (ps : List (Bytes × Bytes)) (root : J.Value) (out : Bytes)
      (vs : List J.Value)
      → All IsDecoded (p ∷ ps)
      → Holds root vs
      → (final : J.Value) × (decode_rows J decode
            (map (λ (q : Bytes × Bytes). q.0) (p ∷ ps))
            root
            out
          ≡ (true, J.write final))
        × Holds final (vs ++ map (λ (q : Bytes × Bytes). J.of_string q.1) (p ∷ ps))
  unfolding decode_rows
  decode_rows-Holds (content, text) [] root out vs (one, _) h =
      (add_decoded J decode text root, rw one refl, add_decoded-Holds text root vs h)
  decode_rows-Holds (content, text) (q ∷ ps) root out vs (one, rest) h =
      let (final, e, (members, items, same)) =
        decode_rows-Holds q ps (add_decoded J decode text root)
          (J.write (add_decoded J decode text root)) (vs ++ (J.of_string text ∷ [])) rest
          (add_decoded-Holds text root vs h) in
      (final, rw one e, (members, items, same ∙ append_assoc vs (J.of_string text ∷ []) _))

  header-Holds : (t : HuaweiTelemetry) → Holds (assign J (huawei_header J decode t) J.null) []
  unfolding equal
  header-Holds t =
      let fresh = member-assign_null J L (huawei_header J decode t) (codes "decoded") in
      let nothing : decoded_of J decode (assign J (huawei_header J decode t) J.null) ≡ J.null =
        ground (arith, fresh) in
      (
        takes_members-assign J L (huawei_header J decode t) J.null (takes_members-null J L),
        rw nothing (ground (arith, L.null_is_null)),
        ap J.items nothing ∙ L.items-null,
      )

  -- Over a jsoncpp that keeps its documentation, for a message with one row or more, all of which
  -- protobuf reads: HuaweiGpbOpenconfigInterface succeeds, and its text is that of an object whose
  -- member "decoded" holds the texts of the rows, all of them, once each and in their order.
  pub huawei_gpb_openconfig_interface-decoded :
      (t : HuaweiTelemetry) (p : Bytes × Bytes) (ps : List (Bytes × Bytes))
      → t.rows ≡ map (λ (q : Bytes × Bytes). q.0) (p ∷ ps)
      → All IsDecoded (p ∷ ps)
      → (final : J.Value) × (huawei_gpb_openconfig_interface J decode t ≡ (true, J.write final))
        × (J.items (decoded_of J decode final)
            ≡ map (λ (q : Bytes × Bytes). J.of_string q.1) (p ∷ ps))
  unfolding huawei_gpb_openconfig_interface
  huawei_gpb_openconfig_interface-decoded t p ps rows all =
      let (final, e, (_, _, same)) =
        decode_rows-Holds p ps (assign J (huawei_header J decode t) J.null) [] [] all
          (header-Holds t) in
      (
        final,
        ap (λ cs. decode_rows J decode cs (assign J (huawei_header J decode t) J.null) []) rows ∙ e,
        same,
      )
