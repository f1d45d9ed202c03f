-- ===== src/Payload/Juniper/Metrics.antt =====
-- Where the values of Juniper's updates stand in the metrics.
use mdt_dialout_collector.Common.{
  true, false, some, done, List, [], ◌∷◌, ◌++◌, ◌≡◌, refl, ◌∙◌, ap, All,
}
use mdt_dialout_collector.Common.Text.{Bytes, codes, equal}
use mdt_dialout_collector.Common.Number.{u64_of}
use mdt_dialout_collector.Json.{Jsoncpp, IsLawful, takes_members}
use mdt_dialout_collector.Json.Assign.{takes_members-set}
use mdt_dialout_collector.Payload.Juniper.{
  JuniperUpdate, JuniperNotification, read_prefix, place, set_filled, juniper_update,
}
use mdt_dialout_collector.Payload.Juniper.Values.{
  path_names, json_of, all_shallow, place_all, notification_json, juniper_update-juniper_json,
}
use mdt_dialout_collector.Payload.Juniper.Nested.{
  parts, no_names, find_path, is_object-place, is_empty-place, find_path-place,
  find_path-place-parts,
}
use mdt_dialout_collector.Payload.Juniper.Filled.{takes_members-set_filled, member-set_filled}

module _ (J : Jsoncpp) (L : IsLawful J) where
  -- The updates whose paths part from this one.
  abbrev pub Apart : List Bytes → JuniperUpdate J.Real → Type 0
  Apart names u = parts (path_names u.path) names ≡ true

  is_object-place_all :
      (updates : List (JuniperUpdate J.Real)) (metrics : J.Value)
      → J.is_object metrics ≡ true
      → J.is_object (place_all J updates metrics) ≡ true
  unfolding place_all
  is_object-place_all [] metrics h = h
  is_object-place_all (u ∷ updates) metrics h =
      is_object-place_all updates _
        (is_object-place J L (path_names u.path) (json_of J u.val) metrics h)

  place_all-append :
      (before after : List (JuniperUpdate J.Real)) (metrics : J.Value)
      → place_all J (before ++ after) metrics ≡ place_all J after (place_all J before metrics)
  unfolding place_all
  place_all-append [] after metrics = refl
  place_all-append (u ∷ before) after metrics =
      place_all-append before after (place J (path_names u.path) (json_of J u.val) metrics)

  is_empty-place_kept :
      (names : List Bytes) (value node : J.Value)
      → J.is_object node ≡ true
      → J.is_empty node ≡ false
      → J.is_empty (place J names value node) ≡ false
  unfolding place
  is_empty-place_kept [] value node h filled = filled
  is_empty-place_kept (name ∷ names) value node h filled =
      is_empty-place J L (name ∷ names) value node h refl

  is_empty-place_all :
      (updates : List (JuniperUpdate J.Real)) (metrics : J.Value)
      → J.is_object metrics ≡ true
      → J.is_empty metrics ≡ false
      → J.is_empty (place_all J updates metrics) ≡ false
  unfolding place_all
  is_empty-place_all [] metrics h filled = filled
  is_empty-place_all (u ∷ updates) metrics h filled =
      let names = path_names u.path in
      is_empty-place_all updates _ (is_object-place J L names (json_of J u.val) metrics h)
        (is_empty-place_kept names (json_of J u.val) metrics h filled)

  find_path-place_all :
      (names : List Bytes) (updates : List (JuniperUpdate J.Real)) (metrics : J.Value)
      → J.is_object metrics ≡ true
      → All (Apart names) updates
      → find_path J names (place_all J updates metrics) ≡ find_path J names metrics
  unfolding place_all
  find_path-place_all names [] metrics h all = refl
  find_path-place_all names (u ∷ updates) metrics h (one, rest) =
      find_path-place_all names updates _
        (is_object-place J L (path_names u.path) (json_of J u.val) metrics h) rest
      ∙ find_path-place-parts J L (path_names u.path) names (json_of J u.val) metrics h one

  -- The metrics of updates among which one has a path and those behind it part from it.
  placed :
      (before : List (JuniperUpdate J.Real)) (u : JuniperUpdate J.Real)
      (after : List (JuniperUpdate J.Real))
      → no_names (path_names u.path) ≡ false
      → All (Apart (path_names u.path)) after
      → (J.is_empty (place_all J (before ++ (u ∷ after)) J.object) ≡ false)
        × (find_path J (path_names u.path) (place_all J (before ++ (u ∷ after)) J.object)
            ≡ some (json_of J u.val))
  unfolding place_all
  placed before u after some_names apart =
      let names = path_names u.path in
      let start = place_all J before J.object in
      let object = is_object-place_all before J.object L.object_is_object in
      let next = is_object-place J L names (json_of J u.val) start object in
      rw (place_all-append before (u ∷ after) J.object) (
        is_empty-place_all after (place J names (json_of J u.val) start) next
            (is_empty-place J L names (json_of J u.val) start object some_names),
        find_path-place_all names after (place J names (json_of J u.val) start) next apart
            ∙ find_path-place J L names (json_of J u.val) start object some_names,
      )

  -- Over a jsoncpp that keeps its documentation, JuniperUpdate makes of a notification none of whose
  -- JSON texts is nested so deep that the reader throws, from a root that takes members, the text of
  -- a JSON object whose member "metrics" is a tree of objects. Under the path of an update, its names
  -- each with its keys in brackets, there stands the value of that update, a JSON text as the JSON
  -- that it holds and any other text as a text, where the path has a name or more and no later update
  -- has a path that leads to the same place, to one above it or to one below it.
  pub juniper_update-metrics :
      (n : JuniperNotification J.Real) (root : J.Value) (before : List (JuniperUpdate J.Real))
      (u : JuniperUpdate J.Real) (after : List (JuniperUpdate J.Real))
      → takes_members J root ≡ true
      → n.update ≡ before ++ (u ∷ after)
      → no_names (path_names u.path) ≡ false
      → All (Apart (path_names u.path)) after
      → all_shallow J n.update ≡ true
      → (final : J.Value) × (metrics : J.Value) × (juniper_update J (some n) root
          ≡ done (J.write final))
        × (J.member? final (codes "metrics") ≡ some metrics)
        × (find_path J (path_names u.path) metrics ≡ some (json_of J u.val))
  unfolding equal
  juniper_update-metrics n root before u after h updates some_names apart shallow =
      let (filled, found) = placed before u after some_names apart in
      let (sensor_path, tags) = read_prefix J n.prefix J.array J.object in
      let metrics = place_all J n.update J.object in
      let head = J.set root (codes "sensor_path") sensor_path in
      let stamped = J.set head (codes "notification_timestamp") (J.of_uint (u64_of n.timestamp)) in
      let takes = takes_members-set_filled J L (codes "tags") tags stamped (
        takes_members-set J L head (codes "notification_timestamp") _
          (takes_members-set J L root (codes "sensor_path") sensor_path h)) in
      let same : metrics ≡ place_all J (before ++ (u ∷ after)) J.object =
        ap (λ us. place_all J us J.object) updates in
      let full : J.is_empty metrics ≡ false = ap J.is_empty same ∙ filled in
      (
        notification_json J n root,
        metrics,
        juniper_update-juniper_json J n root shallow,
        member-set_filled J L (codes "metrics") metrics (set_filled J (codes "tags") tags stamped)
              (codes "metrics") takes
            ∙ rw full refl,
        ap (find_path J (path_names u.path)) same ∙ found,
      )
