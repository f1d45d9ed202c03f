-- ===== src/Payload/Nokia/Members.antt =====
-- What the JSON of a Nokia update holds.
use mathlib.Core.List.{map, append_assoc, append-nil}
use mdt_dialout_collector.Common.{
  ℕ, true, false, Option, none, some, List, [], ◌∷◌, ◌++◌, ◌≡◌, refl, sym, ◌∙◌, ap, arith, ◌==◌,
  ◌⊎◌, inl, inr,
}
use mdt_dialout_collector.Common.Number.{u64_of}
use mdt_dialout_collector.Common.Text.{Bytes, codes, equal}
use mdt_dialout_collector.Json.{Jsoncpp, IsLawful, takes_items}
use mdt_dialout_collector.Json.Assign.{
  assign, assigned, member-assign_null, takes_members-set, takes_members-null,
}
use mdt_dialout_collector.Payload.Nokia.{
  PathElem, Update, Notification, slashed, filters, path_element, sensor_path, collected_path,
  updated, notified, nokia_update,
}

List-cases :
    (elems : List PathElem)
    → (elems ≡ []) ⊎ ((p : PathElem) × (ps : List PathElem) × (elems ≡ p ∷ ps))
List-cases [] = inl refl
List-cases (p ∷ ps) = inr (p, ps, refl)

-- The keys of an element, each with its last value as a text, and nothing where it has no key.
abbrev pub HasFilters : (J : Jsoncpp) → List (Bytes × Bytes) → J.Value → Type 0
HasFilters J [] v = J.member? v (codes "filters") ≡ none
HasFilters J (kv ∷ kvs) v =
    (f : J.Value) × (J.member? v (codes "filters") ≡ some f)
    × ((key : Bytes)
        → J.member? f key
          ≡ assigned key (map (λ (kv : Bytes × Bytes). (kv.0, J.of_string kv.1)) (kv ∷ kvs)) none)

-- An element of the prefix as JSON: its name and its keys.
abbrev pub IsElement : (J : Jsoncpp) → PathElem → J.Value → Type 0
IsElement J e v = (J.member? v (codes "name") ≡ some (J.of_string e.name)) × HasFilters J e.key v

module _ (J : Jsoncpp) (L : IsLawful J) where
  pub items-sensor_path :
      (elems : List PathElem) (v : J.Value)
      → takes_items J v ≡ true
      → J.items (sensor_path J elems v) ≡ J.items v ++ map (path_element J) elems
  unfolding sensor_path
  items-sensor_path [] v h = sym (append-nil (J.items v))
  items-sensor_path (e ∷ elems) v h =
      items-sensor_path elems (J.append v (path_element J e))
        (ground (arith, L.append_is_array v (path_element J e) h))
      ∙ rw (
        L.items-append v (path_element J e) h,
        append_assoc (J.items v) (path_element J e ∷ []) (map (path_element J) elems),
      )

  name-path_element :
      (e : PathElem) → J.member? (path_element J e) (codes "name") ≡ some (J.of_string e.name)
  unfolding path_element equal
  name-path_element e =
      let named =
        L.member-set J.null (codes "name") (J.of_string e.name) (codes "name")
          (takes_members-null J L) in
      let kept =
        L.member-set (J.set J.null (codes "name") (J.of_string e.name)) (codes "filters")
          (filters J e.key) (codes "name")
          (takes_members-set J L J.null (codes "name") (J.of_string e.name)
            (takes_members-null J L)) in
      ground (arith, named, kept)

  path_element-HasFilters :
      (name : Bytes) (key : List (Bytes × Bytes))
      → HasFilters J key (path_element J (record { name = name; key = key }))
  unfolding path_element equal
  path_element-HasFilters name [] =
      L.member-set J.null (codes "name") (J.of_string name) (codes "filters")
        (takes_members-null J L)
      ∙ L.member-null (codes "filters")
  path_element-HasFilters name (kv ∷ kvs) = (
    filters J (kv ∷ kvs),
    L.member-set (J.set J.null (codes "name") (J.of_string name)) (codes "filters")
        (filters J (kv ∷ kvs)) (codes "filters")
        (takes_members-set J L J.null (codes "name") (J.of_string name) (takes_members-null J L)),
    λ k.
        member-assign_null J L (map (λ (kv : Bytes × Bytes). (kv.0, J.of_string kv.1)) (kv ∷ kvs))
          k,
  )

  collected_path_step :
      (v name : J.Value) (vs : List J.Value) (path : Bytes)
      → J.member? v (codes "name") ≡ some name
      → collected_path J (v ∷ vs) path
        ≡ collected_path J vs (path ++ (codes "/" ++ J.as_string name))
  unfolding collected_path
  collected_path_step v name vs path h = ground arith

  collected_path-slashed :
      (elems : List PathElem) (path : Bytes)
      → collected_path J (map (path_element J) elems) path ≡ path ++ slashed elems
  unfolding collected_path slashed
  collected_path-slashed [] path = sym (append-nil path)
  collected_path-slashed (e ∷ elems) path =
      collected_path_step (path_element J e) (J.of_string e.name) (map (path_element J) elems) path
        (name-path_element e)
      ∙ rw (L.as_string-of_string e.name) (
          collected_path-slashed elems (path ++ (codes "/" ++ e.name))
          ∙ append_assoc path (codes "/" ++ e.name) (slashed elems))

  collected_path-sensor_path :
      (elems : List PathElem)
      → collected_path J (J.items (sensor_path J elems J.array)) [] ≡ slashed elems
  collected_path-sensor_path elems =
      rw (items-sensor_path elems J.array (ground (arith, L.array_is_array)), L.items-array)
        (collected_path-slashed elems [])

  -- A key that begins with another byte than a slash is not that of an update.
  assigned-updated :
      (c : ℕ) (key : Bytes) (updates : List Update) (old : Option J.Value)
      → (b'/' == c) ≡ false
      → assigned (c ∷ key) (updated J updates) old ≡ old
  unfolding slashed equal
  assigned-updated c key [] old h = refl
  assigned-updated c key (u ∷ updates) old h = elim (List-cases u.path) [
    | inl e ↦ rw e (assigned-updated c key updates old h)
    | inr (p, ps, e) ↦ rw (e, h) (assigned-updated c key updates old h)
  ]

  -- Over a jsoncpp that keeps its documentation, NokiaUpdate makes of a notification, from a fresh
  -- root, the text of one JSON object. Under each path, its names each behind a slash, it holds the
  -- value of the last update with that path, as a text, and nothing where no update has it. No
  -- update overwrites the prefix, which stands under collected_path in the same way and under
  -- sensor_path as one element for each name, with the name and, where it has keys, their values as
  -- texts, nor the timestamp, which is an unsigned number, modulo 2^64.
  pub nokia_update-notified :
      (n : Notification)
      → (root : J.Value) × (nokia_update J (some n) J.null ≡ J.write root)
        × ((e : PathElem) (elems : List PathElem)
            → J.member? root (slashed (e ∷ elems))
              ≡ assigned
                  (slashed (e ∷ elems))
                  (map (λ (u : Update). (slashed u.path, J.of_string u.json_ietf_val)) n.update)
                  none)
        × (J.member? root (codes "collected_path") ≡ some (J.of_string (slashed n.prefix)))
        × (J.member? root (codes "sensor_path") ≡ some (sensor_path J n.prefix J.array))
        × (J.items (sensor_path J n.prefix J.array) ≡ map (path_element J) n.prefix)
        × ((e : PathElem) → IsElement J e (path_element J e))
        × (J.member? root (codes "notification_timestamp") ≡ some (J.of_uint (u64_of n.timestamp)))
  unfolding nokia_update equal slashed
  nokia_update-notified n = (
    assign J (notified J n) J.null,
    refl,
    (λ e elems. member-assign_null J L (notified J n) (slashed (e ∷ elems))),
    member-assign_null J L (notified J n) (codes "collected_path")
        ∙ assigned-updated b'c' (codes "ollected_path") n.update _ refl
        ∙ ap (λ s. some (J.of_string s)) (collected_path-sensor_path n.prefix),
    member-assign_null J L (notified J n) (codes "sensor_path")
        ∙ assigned-updated b's' (codes "ensor_path") n.update _ refl,
    items-sensor_path n.prefix J.array (ground (arith, L.array_is_array))
        ∙ ap (λ vs. vs ++ map (path_element J) n.prefix) L.items-array,
    (λ e. (name-path_element e, path_element-HasFilters e.name e.key)),
    member-assign_null J L (notified J n) (codes "notification_timestamp")
        ∙ assigned-updated b'n' (codes "otification_timestamp") n.update _ refl,
  )
