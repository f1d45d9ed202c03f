-- ===== src/Payload/Juniper/Filled.antt =====
-- A member that is set only where its value is not empty.
use mdt_dialout_collector.Common.{
  true, not, ◌&&◌, some, ◌≡◌, refl, Bool-cases, inl, inr, if◌then◌else◌,
}
use mdt_dialout_collector.Common.Text.{Bytes, equal}
use mdt_dialout_collector.Json.{Jsoncpp, IsLawful, takes_members}
use mdt_dialout_collector.Json.Assign.{takes_members-set}
use mdt_dialout_collector.Payload.Juniper.{set_filled}

module _ (J : Jsoncpp) (L : IsLawful J) where
  pub takes_members-set_filled :
      (key : Bytes) (v root : J.Value)
      → takes_members J root ≡ true
      → takes_members J (set_filled J key v root) ≡ true
  takes_members-set_filled key v root h = elim (Bool-cases (J.is_empty v)) [
    | inl e ↦ rw e h
    | inr e ↦ rw e (takes_members-set J L root key v h)
  ]

  pub member-set_filled :
      (key : Bytes) (v root : J.Value) (j : Bytes)
      → takes_members J root ≡ true
      → J.member? (set_filled J key v root) j
        ≡ (if not (J.is_empty v) && equal key j then some v else J.member? root j)
  member-set_filled key v root j h = elim (Bool-cases (J.is_empty v)) [
    | inl e ↦ rw e refl
    | inr e ↦ rw e (L.member-set root key v j h)
  ]
