-- ===== src/Payload/Juniper/Nested.antt =====
-- A value that is placed under a path of names, and the values under other paths.
use mdt_dialout_collector.Common.{
  Bool, true, false, Option, none, some, List, [], ◌∷◌, ◌≡◌, refl, ◌∙◌, arith, Bool-cases,
  Option-cases, inl, inr, if◌then◌else◌,
}
use mdt_dialout_collector.Common.Text.{Bytes, equal, equal_iff, equal_refl}
use mdt_dialout_collector.Json.{Jsoncpp, IsLawful}
use mdt_dialout_collector.Payload.Juniper.{child_object, place}

-- Two paths part at a name that both have: none of them leads on behind the other.
abbrev pub parts : List Bytes → List Bytes → Bool
parts (a ∷ p) (b ∷ q) = let rest = parts p q in if equal a b then rest else true
parts _ _ = false

abbrev pub no_names : List Bytes → Bool
no_names [] = true
no_names (_ ∷ _) = false

module _ (J : Jsoncpp) where
  -- The value under a path, through objects only.
  abbrev pub find_path : List Bytes → J.Value → Option J.Value
  find_path [] v = some v
  find_path (name ∷ names) v =
      if J.is_object v
      then (elim (J.member? v name) [ none ↦ none | some child ↦ find_path names child ])
      else none

module _ (J : Jsoncpp) (L : IsLawful J) where
  is_object-child_object :
      (node : J.Value) (name : Bytes) → J.is_object (child_object J node name) ≡ true
  is_object-child_object node name = ground (arith, L.object_is_object)

  -- Placing a value leaves an object.
  pub is_object-place :
      (names : List Bytes) (value node : J.Value)
      → J.is_object node ≡ true
      → J.is_object (place J names value node) ≡ true
  unfolding place
  is_object-place [] value node h = h
  is_object-place (name ∷ []) value node h = L.set_is_object node name value (ground arith)
  is_object-place (name ∷ next ∷ names) value node h = L.set_is_object node name _ (ground arith)

  pub is_empty-place :
      (names : List Bytes) (value node : J.Value)
      → J.is_object node ≡ true
      → no_names names ≡ false
      → J.is_empty (place J names value node) ≡ false
  unfolding place
  is_empty-place [] value node h some_names = absurd (cc)
  is_empty-place (name ∷ []) value node h some_names = L.empty-set node name value (ground arith)
  is_empty-place (name ∷ next ∷ names) value node h some_names =
      L.empty-set node name _ (ground arith)

  find_path-set :
      (name : Bytes) (names : List Bytes) (child node : J.Value)
      → J.is_object node ≡ true
      → find_path J (name ∷ names) (J.set node name child) ≡ find_path J names child
  find_path-set name names child node h =
      let found = L.member-set node name child name (ground arith) in
      let object = L.set_is_object node name child (ground arith) in
      rw (object, found, equal_refl name) refl

  find_path-set_ne :
      (name other : Bytes) (names : List Bytes) (child node : J.Value)
      → J.is_object node ≡ true
      → equal name other ≡ false
      → find_path J (other ∷ names) (J.set node name child) ≡ find_path J (other ∷ names) node
  find_path-set_ne name other names child node h ne =
      let found = L.member-set node name child other (ground arith) in
      let object = L.set_is_object node name child (ground arith) in rw (object, found, ne, h) refl

  -- The value stands where it has been placed.
  pub find_path-place :
      (names : List Bytes) (value node : J.Value)
      → J.is_object node ≡ true
      → no_names names ≡ false
      → find_path J names (place J names value node) ≡ some value
  unfolding place
  find_path-place [] value node h some_names = absurd (cc)
  find_path-place (name ∷ []) value node h some_names = find_path-set name [] value node h
  find_path-place (name ∷ next ∷ names) value node h some_names =
      find_path-set name (next ∷ names) (place J (next ∷ names) value (child_object J node name))
        node h
      ∙ find_path-place (next ∷ names) value (child_object J node name)
          (is_object-child_object node name) refl

  -- A step into a child that is made an object keeps what can be found behind it.
  find_path-child_object :
      (name next : Bytes) (names : List Bytes) (node : J.Value)
      → J.is_object node ≡ true
      → find_path J (next ∷ names) (child_object J node name)
        ≡ find_path J (name ∷ next ∷ names) node
  find_path-child_object name next names node h = elim (Option-cases (J.member? node name)) [
    | inl missing ↦
        let fresh : child_object J node name ≡ J.object = ground arith in
        rw fresh (rw (missing, h, L.object_is_object, L.member-object next) refl)
    | inr (child, found) ↦ elim (Bool-cases (J.is_object child)) [
      | inl e ↦
          let kept : child_object J node name ≡ child = ground arith in rw kept (rw (found, h) refl)
      | inr e ↦
          let fresh : child_object J node name ≡ J.object = ground arith in
          rw fresh (rw (found, h, e, L.object_is_object, L.member-object next) refl)
    ]
  ]

  -- What stands under a path that parts from this one stays.
  pub find_path-place-parts :
      (names others : List Bytes) (value node : J.Value)
      → J.is_object node ≡ true
      → parts names others ≡ true
      → find_path J others (place J names value node) ≡ find_path J others node
  unfolding place
  find_path-place-parts [] others value node h p = absurd (cc)
  find_path-place-parts (name ∷ names) [] value node h p = absurd (cc)
  find_path-place-parts (name ∷ []) (b ∷ others) value node h p =
      find_path-set_ne name b others value node h (ground arith)
  find_path-place-parts (name ∷ next ∷ names) (b ∷ []) value node h p =
      find_path-set_ne name b [] (place J (next ∷ names) value (child_object J node name)) node h
        (ground arith)
  find_path-place-parts (name ∷ next ∷ names) (b ∷ c ∷ others) value node h p =
      elim (Bool-cases (equal name b)) [
        | inr e ↦
            find_path-set_ne name b (c ∷ others)
              (place J (next ∷ names) value (child_object J node name)) node h e
        | inl e ↦
            let same : name ≡ b = (equal_iff name b).0 e in
            rw (← same) (
              find_path-set name (c ∷ others)
                (place J (next ∷ names) value (child_object J node name)) node h
              ∙ find_path-place-parts (next ∷ names) (c ∷ others) value (child_object J node name)
                  (is_object-child_object node name) (rw e at p)
              ∙ find_path-child_object name c others node h)
      ]
