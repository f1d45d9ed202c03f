-- ===== src/Server/Handed/Numbered.antt =====
-- The sequence numbers of the envelopes, with Kafka, whatever the label map and the peers are.
use mdt_dialout_collector.Common.{
  ℕ, suc, ◌+◌, ◌<◌, List, [], ◌∷◌, done, ◌≡◌, ◌∙◌, arith, ap, length, bind-eq-done, done-injective,
}
use mdt_dialout_collector.Common.Number.{u64}
use mdt_dialout_collector.Json.{Jsoncpp, IsLawful}
use mdt_dialout_collector.Server.{to_kafka, Context, World}
use mdt_dialout_collector.Server.Delivered.{deliver_payload-Envelope}
use mdt_dialout_collector.Server.Handed.{Delivery, deliver, deliver_all}

pub u64-suc : (a n : ℕ) → u64 (u64 (a + 1) + n) ≡ u64 (a + suc n)
u64-suc a n = omega arith

module _ (J : Jsoncpp) (L : IsLawful J) (ctx : Context) (kafka : ctx.delivery ≡ to_kafka) where
  deliver-seq :
      (d : Delivery) (w w' : World)
      → deliver J ctx d w ≡ done w'
      → w'.sequence_number ≡ u64 (w.sequence_number + 1)
  deliver-seq d w w' h =
      let (_, (_, _, _, same, _, _, _), _, _, _, _) =
        deliver_payload-Envelope J L ctx d.moment d.body d.peer_ip d.peer_port w w' kafka h in
      same

  -- Deliveries none of which throws number themselves.
  pub deliver_all-seq :
      (ds : List Delivery) (w w' : World)
      → w.sequence_number < 18446744073709551616
      → deliver_all J ctx ds w ≡ done w'
      → w'.sequence_number ≡ u64 (w.sequence_number + length ds)
  unfolding deliver_all
  deliver_all-seq [] w w' small h =
      omega (arith, ap (λ (v : World). v.sequence_number) (done-injective h))
  deliver_all-seq (d ∷ ds) w w' small h =
      let (v, first, others) = bind-eq-done (deliver J ctx d w) (deliver_all J ctx ds) {b = w'} h in
      let one = deliver-seq d w v first in
      deliver_all-seq ds v w' (omega (arith, one)) others
      ∙ ap (λ n. u64 (n + length ds)) one
      ∙ u64-suc w.sequence_number (length ds)
