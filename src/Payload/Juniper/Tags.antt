-- ===== src/Payload/Juniper/Tags.antt =====
-- What JuniperUpdate makes of a notification's prefix and of its timestamp.
use mathlib.Core.List.{map}
use mdt_dialout_collector.Common.{
  Bool, true, false, not, ◌&&◌, some, none, done, List, [], ◌∷◌, ◌++◌, ◌≡◌, refl, ◌∙◌, ap, arith,
  if◌then◌else◌,
}
use mdt_dialout_collector.Common.Text.{Bytes, codes, equal}
use mdt_dialout_collector.Common.Number.{u64_of}
use mdt_dialout_collector.Json.{Jsoncpp, IsLawful, takes_members}
use mdt_dialout_collector.Json.Assign.{assign, assigned, member-assign, takes_members-set}
use mdt_dialout_collector.Payload.Nokia.{PathElem, path_element, sensor_path}
use mdt_dialout_collector.Payload.Nokia.Members.{items-sensor_path}
use mdt_dialout_collector.Payload.Juniper.{
  JuniperNotification, add_tags, read_prefix, set_filled, juniper_update,
}
use mdt_dialout_collector.Payload.Juniper.Values.{
  all_shallow, place_all, notification_json, juniper_update-juniper_json,
}
use mdt_dialout_collector.Payload.Juniper.Filled.{takes_members-set_filled, member-set_filled}

module _ (J : Jsoncpp) where
  -- The tags of one element: its name and a key, with the key's value.
  abbrev pub element_tags : Bytes → List (Bytes × Bytes) → List (Bytes × J.Value)
  element_tags name key =
      map (λ (kv : Bytes × Bytes). (name ++ (codes "_" ++ kv.0), J.of_string kv.1)) key

  -- The tags of a prefix, in the order of its elements.
  abbrev pub prefix_tags : List PathElem → List (Bytes × J.Value)
  prefix_tags [] = []
  prefix_tags (e ∷ elems) = element_tags e.name e.key ++ prefix_tags elems

  abbrev pub no_tags : List (Bytes × J.Value) → Bool
  no_tags [] = true
  no_tags (_ ∷ _) = false

  assign-append :
      (kvs others : List (Bytes × J.Value)) (v : J.Value)
      → assign J (kvs ++ others) v ≡ assign J others (assign J kvs v)
  unfolding assign
  assign-append [] others v = refl
  assign-append ((key, x) ∷ kvs) others v = assign-append kvs others (J.set v key x)

  add_tags-assign :
      (name : Bytes) (key : List (Bytes × Bytes)) (tags : J.Value)
      → add_tags J name key tags ≡ assign J (element_tags name key) tags
  unfolding add_tags assign
  add_tags-assign name [] tags = refl
  add_tags-assign name ((k, v) ∷ key) tags =
      add_tags-assign name key (J.set tags (name ++ (codes "_" ++ k)) (J.of_string v))

  -- The loop makes the sensor path that Nokia's loop makes, and assigns the tags.
  read_prefix-assign :
      (elems : List PathElem) (path tags : J.Value)
      → read_prefix J elems path tags
        ≡ (sensor_path J elems path, assign J (prefix_tags elems) tags)
  unfolding read_prefix sensor_path assign
  read_prefix-assign [] path tags = refl
  read_prefix-assign (e ∷ elems) path tags =
      read_prefix-assign elems (J.append path (path_element J e)) (add_tags J e.name e.key tags)
      ∙ ap (λ v. (sensor_path J elems (J.append path (path_element J e)), v))
          (ap (assign J (prefix_tags elems)) (add_tags-assign e.name e.key tags)
            ∙ rw (assign-append (element_tags e.name e.key) (prefix_tags elems) tags) refl)

module _ (J : Jsoncpp) (L : IsLawful J) where
  is_empty-assign_filled :
      (kvs : List (Bytes × J.Value)) (v : J.Value)
      → takes_members J v ≡ true
      → J.is_empty v ≡ false
      → J.is_empty (assign J kvs v) ≡ false
  unfolding assign
  is_empty-assign_filled [] v h filled = filled
  is_empty-assign_filled ((key, x) ∷ kvs) v h filled =
      is_empty-assign_filled kvs (J.set v key x) (takes_members-set J L v key x h)
        (L.empty-set v key x h)

  is_empty-assign :
      (kvs : List (Bytes × J.Value)) → J.is_empty (assign J kvs J.object) ≡ no_tags J kvs
  unfolding assign
  is_empty-assign [] = L.empty-object
  is_empty-assign ((key, x) ∷ kvs) =
      let object : takes_members J J.object ≡ true = ground (arith, L.object_is_object) in
      is_empty-assign_filled kvs (J.set J.object key x)
        (takes_members-set J L J.object key x object) (L.empty-set J.object key x object)

  -- The members besides the metrics.
  member-notification_json :
      (n : JuniperNotification J.Real) (root : J.Value) (j : Bytes)
      → takes_members J root ≡ true
      → equal (codes "metrics") j ≡ false
      → J.member? (notification_json J n root) j ≡ (
          if not (no_tags J (prefix_tags J n.prefix)) && equal (codes "tags") j
          then some (assign J (prefix_tags J n.prefix) J.object)
          else if equal (codes "notification_timestamp") j
          then some (J.of_uint (u64_of n.timestamp))
          else if equal (codes "sensor_path") j
          then some (sensor_path J n.prefix J.array)
          else J.member? root j)
  member-notification_json n root j h other =
      let path = sensor_path J n.prefix J.array in
      let tags = assign J (prefix_tags J n.prefix) J.object in
      let stamp = J.of_uint (u64_of n.timestamp) in
      let head = J.set root (codes "sensor_path") path in
      let takes = takes_members-set J L root (codes "sensor_path") path h in
      let stamped = J.set head (codes "notification_timestamp") stamp in
      let stamped_takes = takes_members-set J L head (codes "notification_timestamp") stamp takes in
      rw (read_prefix-assign J n.prefix J.array J.object) (
        member-set_filled J L (codes "metrics") (place_all J n.update J.object)
          (set_filled J (codes "tags") tags stamped) j
          (takes_members-set_filled J L (codes "tags") tags stamped stamped_takes)
        ∙ rw other (
            ground (
              arith,
              member-set_filled J L (codes "tags") tags stamped j stamped_takes,
              is_empty-assign (prefix_tags J n.prefix),
              L.member-set head (codes "notification_timestamp") stamp j takes,
              L.member-set root (codes "sensor_path") path j h,
            )))

  -- Over a jsoncpp that keeps its documentation, JuniperUpdate makes of a notification none of whose
  -- JSON texts is nested so deep that the reader throws, from a root that takes members, the text of
  -- a JSON object. Its member "sensor_path" has one element for each element of the prefix, in their
  -- order, and "notification_timestamp" is the timestamp as an unsigned number. Its member "tags" has
  -- the value of each key of each element of the prefix,
  -- under the element's name and the key, of the last one where there are several, and nothing else;
  -- where the prefix has no key the root's own member "tags" stays.
  pub juniper_update-tags :
      (n : JuniperNotification J.Real) (root : J.Value)
      → takes_members J root ≡ true
      → all_shallow J n.update ≡ true
      → (final : J.Value) × (path : J.Value) × (tags : J.Value) × (juniper_update J (some n) root
          ≡ done (J.write final))
        × (J.member? final (codes "sensor_path") ≡ some path)
        × (J.items path ≡ map (path_element J) n.prefix)
        × (J.member? final (codes "notification_timestamp") ≡ some (J.of_uint (u64_of n.timestamp)))
        × (J.member? final (codes "tags") ≡ (
            if no_tags J (prefix_tags J n.prefix)
            then J.member? root (codes "tags")
            else some tags))
        × ((j : Bytes) → J.member? tags j ≡ assigned j (prefix_tags J n.prefix) none)
  unfolding equal
  juniper_update-tags n root h shallow =
      let path = sensor_path J n.prefix J.array in
      let tags = assign J (prefix_tags J n.prefix) J.object in
      let object : takes_members J J.object ≡ true = ground (arith, L.object_is_object) in
      (
        notification_json J n root,
        path,
        tags,
        juniper_update-juniper_json J n root shallow,
        rw (member-notification_json n root (codes "sensor_path") h refl) (ground arith),
        items-sensor_path J L n.prefix J.array (ground (arith, L.array_is_array))
            ∙ ap (λ vs. vs ++ map (path_element J) n.prefix) L.items-array,
        rw (member-notification_json n root (codes "notification_timestamp") h refl) (ground arith),
        rw (member-notification_json n root (codes "tags") h refl) (ground arith),
        (λ j.
            member-assign J L (prefix_tags J n.prefix) J.object j object
            ∙ ap (assigned j (prefix_tags J n.prefix)) (L.member-object j)),
      )
