-- ===== src/Payload/Juniper/Header.antt =====
-- What JuniperExtension reads of the header extensions.
use mdt_dialout_collector.Common.{
  ℕ, Bool, true, false, not, ◌==◌, Option, none, some, List, [], ◌∷◌, ◌++◌, ◌≡◌, refl, sym, ◌∙◌, ap,
  arith, if◌then◌else◌, Bool-cases, Option-cases, ◌⊎◌, inl, inr,
}
use mdt_dialout_collector.Common.Text.{Bytes, codes, equal, is_empty}
use mdt_dialout_collector.Json.{Jsoncpp, IsLawful, takes_members, or_text}
use mdt_dialout_collector.Json.Assign.{assigned, takes_members-set}
use mdt_dialout_collector.Payload.Juniper.{
  Extension, registered_ext, other_ext, HeaderExtension, telemetry_header_id, with_system_id,
  with_extension, juniper_extension,
}

module _ (J : Jsoncpp) (H : HeaderExtension) where
  -- Protobuf reads each telemetry header, and prints it.
  abbrev pub all_read : List Extension → Bool
  all_read [] = true
  all_read (other_ext ∷ exts) = all_read exts
  all_read (registered_ext id msg ∷ exts) =
      let rest = all_read exts in
      if id == telemetry_header_id
      then (elim (H.parse_from_string msg) [
        | none ↦ false
        | some header ↦ elim (H.message_to_json_string header) [ none ↦ false | some text ↦ rest ]
      ])
      else rest

  -- The members of one header: the name of the system, where it has one, and the whole as JSON.
  abbrev pub header_members : Bytes → Bytes → List (Bytes × J.Value)
  header_members system_id text =
      (if not (is_empty system_id) then (codes "system_id", J.of_string system_id) ∷ [] else [])
      ++ ((codes "extension", or_text J text (J.parse text)) ∷ [])

  -- The members of all telemetry headers, in order.
  abbrev pub all_members : List Extension → List (Bytes × J.Value)
  all_members [] = []
  all_members (other_ext ∷ exts) = all_members exts
  all_members (registered_ext id msg ∷ exts) =
      let rest = all_members exts in
      if id == telemetry_header_id
      then (elim (H.parse_from_string msg) [
        | none ↦ []
        | some header ↦ elim (H.message_to_json_string header) [
          | none ↦ []
          | some text ↦ header_members (H.system_id header) text ++ rest
        ]
      ])
      else rest

module _ (J : Jsoncpp) (L : IsLawful J) (H : HeaderExtension) where
  assigned-append :
      (j : Bytes) (kvs others : List (Bytes × J.Value)) (old : Option J.Value)
      → assigned j (kvs ++ others) old ≡ assigned j others (assigned j kvs old)
  assigned-append j [] others old = refl
  assigned-append j ((key, x) ∷ kvs) others old =
      assigned-append j kvs others (if equal key j then some x else old)

  takes_members-with_system_id :
      (id : Bytes) (root : J.Value)
      → takes_members J root ≡ true
      → takes_members J (with_system_id J H id root) ≡ true
  takes_members-with_system_id id root h = elim (Bool-cases (is_empty id)) [
    | inl e ↦ rw e h
    | inr e ↦ rw e (takes_members-set J L root (codes "system_id") (J.of_string id) h)
  ]

  member-header :
      (id text : Bytes) (root : J.Value) (j : Bytes)
      → takes_members J root ≡ true
      → J.member? (with_extension J H text (with_system_id J H id root)) j
        ≡ assigned j (header_members J H id text) (J.member? root j)
  member-header id text root j h =
      L.member-set (with_system_id J H id root) (codes "extension") (or_text J text (J.parse text))
        j (takes_members-with_system_id id root h)
      ∙ elim (Bool-cases (is_empty id)) [
        | inl e ↦ rw e refl
        | inr e ↦ rw (e, L.member-set root (codes "system_id") (J.of_string id) j h) refl
      ]

  -- The extensions have been read, and the root has their members.
  abbrev pub IsRead : List Extension → J.Value → Bool × J.Value → Type 0
  IsRead exts root result =
      ((all_read J H exts ≡ true)
        × (root' : J.Value) × (result ≡ (true, root'))
        × (takes_members J root' ≡ true)
        × ((j : Bytes) → J.member? root' j ≡ assigned j (all_members J H exts) (J.member? root j)))
      ⊎ ((all_read J H exts ≡ false) × (root' : J.Value) × (result ≡ (false, root')))

  unparsed :
      (id : ℕ) (msg : Bytes) (exts : List Extension) (root : J.Value)
      → (id == telemetry_header_id) ≡ true
      → H.parse_from_string msg ≡ none
      → juniper_extension J H (registered_ext id msg ∷ exts) root ≡ (false, root)
  unfolding juniper_extension
  unparsed id msg exts root header bad = ground arith

  unprinted :
      (id : ℕ) (msg : Bytes) (exts : List Extension) (root : J.Value) {x : H.Header}
      → (id == telemetry_header_id) ≡ true
      → H.parse_from_string msg ≡ some x
      → H.message_to_json_string x ≡ none
      → juniper_extension J H (registered_ext id msg ∷ exts) root
        ≡ (false, with_system_id J H (H.system_id x) root)
  unfolding juniper_extension
  unprinted id msg exts root header parsed bad = ground arith

  printed_header :
      (id : ℕ) (msg : Bytes) (exts : List Extension) (root : J.Value) {x : H.Header} {text : Bytes}
      → (id == telemetry_header_id) ≡ true
      → H.parse_from_string msg ≡ some x
      → H.message_to_json_string x ≡ some text
      → juniper_extension J H (registered_ext id msg ∷ exts) root
        ≡ juniper_extension J H exts
            (with_extension J H text (with_system_id J H (H.system_id x) root))
  unfolding juniper_extension
  printed_header id msg exts root header parsed printed = ground arith

  not_header :
      (id : ℕ) (msg : Bytes) (exts : List Extension) (root : J.Value)
      → (id == telemetry_header_id) ≡ false
      → juniper_extension J H (registered_ext id msg ∷ exts) root ≡ juniper_extension J H exts root
  unfolding juniper_extension
  not_header id msg exts root other = ground arith

  all_members_step :
      (id : ℕ) (msg : Bytes) (exts : List Extension) {x : H.Header} {text : Bytes}
      → (id == telemetry_header_id) ≡ true
      → H.parse_from_string msg ≡ some x
      → H.message_to_json_string x ≡ some text
      → all_members J H (registered_ext id msg ∷ exts)
        ≡ header_members J H (H.system_id x) text ++ all_members J H exts
  all_members_step id msg exts header parsed printed = rw (header, parsed, printed) refl

  pub juniper_extension-IsRead :
      (exts : List Extension) (root : J.Value)
      → takes_members J root ≡ true
      → IsRead exts root (juniper_extension J H exts root)
  unfolding juniper_extension
  juniper_extension-IsRead [] root h = inl (refl, root, refl, h, λ j. refl)
  juniper_extension-IsRead (other_ext ∷ exts) root h = juniper_extension-IsRead exts root h
  juniper_extension-IsRead (registered_ext id msg ∷ exts) root h =
      elim (Bool-cases (id == telemetry_header_id)) [
        | inr other ↦ elim (juniper_extension-IsRead exts root h) [
          | inr (unread, root2, e) ↦
              inr (ground arith, root2, not_header id msg exts root other ∙ e)
          | inl (read, root2, e, takes2, members) ↦
              inl (
                ground arith,
                root2,
                not_header id msg exts root other ∙ e,
                takes2,
                rw other members,
              )
        ]
        | inl header ↦ elim (Option-cases (H.parse_from_string msg)) [
          | inl bad ↦ inr (ground arith, root, unparsed id msg exts root header bad)
          | inr (x, parsed) ↦ elim (Option-cases (H.message_to_json_string x)) [
            | inl bad ↦ inr (
              ground arith,
              with_system_id J H (H.system_id x) root,
              unprinted id msg exts root header parsed bad,
            )
            | inr (text, printed) ↦
                let root1 = with_extension J H text (with_system_id J H (H.system_id x) root) in
                let step = printed_header id msg exts root header parsed printed in
                let takes =
                  takes_members-set J L (with_system_id J H (H.system_id x) root)
                    (codes "extension") (or_text J text (J.parse text))
                    (takes_members-with_system_id (H.system_id x) root h) in
                elim (juniper_extension-IsRead exts root1 takes) [
                  | inr (unread, root2, e) ↦ inr (ground arith, root2, step ∙ e)
                  | inl (read, root2, e, takes2, members) ↦ inl (
                    ground arith,
                    root2,
                    step ∙ e,
                    takes2,
                    λ j.
                        members j
                        ∙ ap (assigned j (all_members J H exts))
                            (member-header (H.system_id x) text root j h)
                        ∙ sym (
                            assigned-append j (header_members J H (H.system_id x) text)
                              (all_members J H exts) (J.member? root j))
                        ∙ ap (λ kvs. assigned j kvs (J.member? root j))
                            (sym (all_members_step id msg exts header parsed printed)),
                  )
                ]
          ]
        ]
      ]
