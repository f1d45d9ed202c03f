-- ===== src/Server/Juniper/Text.antt =====
-- The text that Juniper's handler delivers.
use mdt_dialout_collector.Common.{true, false, none, done, [], ◌≡◌, refl, ◌∙◌, ap, ◌⊎◌, inl, inr}
use mdt_dialout_collector.Common.Text.{Bytes}
use mdt_dialout_collector.Json.{Jsoncpp, IsLawful, takes_members}
use mdt_dialout_collector.Json.Assign.{assigned, takes_members-null}
use mdt_dialout_collector.Payload.Juniper.{HeaderExtension, juniper_update}
use mdt_dialout_collector.Payload.Juniper.Header.{all_read, all_members, juniper_extension-IsRead}
use mdt_dialout_collector.Server.Juniper.{JuniperRequest, juniper_text}

module _ (J : Jsoncpp) (L : IsLawful J) (H : HeaderExtension) where
  -- Over a jsoncpp that keeps its documentation: where protobuf reads every telemetry header among
  -- the extensions of a response, and prints it, Juniper's handler delivers what JuniperUpdate makes
  -- of the update in a root that takes members. That root has under "extension" the last header, as
  -- JSON where its text is JSON, and under "system_id" the name of the system in the last header that
  -- has one, and no other member. Where protobuf fails on one of the headers, the handler delivers
  -- the empty text, and the update is lost.
  pub juniper_text-cases :
      (request : JuniperRequest J.Real)
      → ((all_read J H request.extension ≡ true)
          × (root : J.Value) × (juniper_text J H request ≡ juniper_update J request.update root)
          × (takes_members J root ≡ true)
          × ((j : Bytes) → J.member? root j ≡ assigned j (all_members J H request.extension) none))
        ⊎ ((all_read J H request.extension ≡ false) × (juniper_text J H request ≡ done []))
  unfolding juniper_text
  juniper_text-cases request =
      elim (juniper_extension-IsRead J L H request.extension J.null (takes_members-null J L)) [
        | inr (unread, root, e) ↦ inr (unread, rw e refl)
        | inl (read, root, e, takes, members) ↦ inl (
          read,
          root,
          rw e refl,
          takes,
          (λ j. members j ∙ ap (assigned j (all_members J H request.extension)) (L.member-null j)),
        )
      ]
