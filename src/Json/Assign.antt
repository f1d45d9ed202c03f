-- ===== src/Json/Assign.antt =====
-- A run of assignments `root["key"] = value`, and what it leaves under a key.
use mdt_dialout_collector.Common.{
  true, false, Option, none, some, List, [], ◌∷◌, ◌≡◌, refl, ◌∙◌, ap, arith, if◌then◌else◌,
}
use mdt_dialout_collector.Common.Text.{Bytes, equal}
use mdt_dialout_collector.Json.{Jsoncpp, IsLawful, takes_members}

module _ (J : Jsoncpp) where
  -- the assignments in their order
  unfoldable pub assign : List (Bytes × J.Value) → J.Value → J.Value
  assign [] v = v
  assign ((key, x) ∷ kvs) v = assign kvs (J.set v key x)

-- The last value that a key is given, or else the value that it had.
abbrev pub assigned {ℓ} : {A : Type ℓ} → Bytes → List (Bytes × A) → Option A → Option A
assigned j [] old = old
assigned j ((key, x) ∷ kvs) old = assigned j kvs (if equal key j then some x else old)

module _ (J : Jsoncpp) (L : IsLawful J) where
  pub takes_members-set :
      (v : J.Value) (key : Bytes) (x : J.Value)
      → takes_members J v ≡ true
      → takes_members J (J.set v key x) ≡ true
  takes_members-set v key x h = ground (arith, L.set_is_object v key x h)

  pub member-assign :
      (kvs : List (Bytes × J.Value)) (v : J.Value) (j : Bytes)
      → takes_members J v ≡ true
      → J.member? (assign J kvs v) j ≡ assigned j kvs (J.member? v j)
  unfolding assign
  member-assign [] v j h = refl
  member-assign ((key, x) ∷ kvs) v j h =
      member-assign kvs (J.set v key x) j (takes_members-set v key x h)
      ∙ ap (assigned j kvs) (L.member-set v key x j h)

  pub takes_members-assign :
      (kvs : List (Bytes × J.Value)) (v : J.Value)
      → takes_members J v ≡ true
      → takes_members J (assign J kvs v) ≡ true
  unfolding assign
  takes_members-assign [] v h = h
  takes_members-assign ((key, x) ∷ kvs) v h =
      takes_members-assign kvs (J.set v key x) (takes_members-set v key x h)

  pub takes_members-null : takes_members J J.null ≡ true
  takes_members-null = ground (arith, L.null_is_null)

  pub member-assign_null :
      (kvs : List (Bytes × J.Value)) (j : Bytes)
      → J.member? (assign J kvs J.null) j ≡ assigned j kvs none
  member-assign_null kvs j =
      member-assign kvs J.null j takes_members-null ∙ ap (assigned j kvs) (L.member-null j)

  -- The same behind one more assignment, to another key.
  pub member-assign_set :
      (kvs : List (Bytes × J.Value)) (key : Bytes) (x : J.Value) (j : Bytes)
      → equal key j ≡ false
      → J.member? (J.set (assign J kvs J.null) key x) j ≡ assigned j kvs none
  member-assign_set kvs key x j h =
      L.member-set (assign J kvs J.null) key x j
        (takes_members-assign kvs J.null takes_members-null)
      ∙ rw h (member-assign_null kvs j)
