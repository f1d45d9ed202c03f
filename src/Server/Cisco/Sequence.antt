-- ===== src/Server/Cisco/Sequence.antt =====
-- The sequence numbers of the envelopes that Cisco's handler makes.
use mdt_dialout_collector.Common.{
  ◌+◌, ◌<◌, List, [], ◌∷◌, done, ◌≡◌, refl, sym, ◌∙◌, ap, arith, length, count, Bool-cases, inl,
  inr,
}
use mdt_dialout_collector.Common.Number.{u64}
use mdt_dialout_collector.Json.{Jsoncpp, IsLawful}
use mdt_dialout_collector.Payload.Cisco.{Telemetry}
use mdt_dialout_collector.Fsm.Serve.{handle_all}
use mdt_dialout_collector.Server.{to_kafka, Context, World}
use mdt_dialout_collector.Server.Cisco.{CiscoRequest, Protobuf, handle_cisco_message}
use mdt_dialout_collector.Server.Handed.{AllReadable, all_handed, handle_all-deliver_all}
use mdt_dialout_collector.Server.Handed.Numbered.{deliver_all-seq}
use mdt_dialout_collector.Server.Handed.Vendors.{is_handed_on, cisco_hands}

module _ (J : Jsoncpp) (P : Protobuf (Telemetry J.Real)) (ctx : Context) where
  length-all_handed :
      (requests : List CiscoRequest)
      → length (all_handed J ctx (cisco_hands J ctx P) requests)
        ≡ count (is_handed_on J ctx P) requests
  length-all_handed [] = refl
  length-all_handed (request ∷ requests) = elim (Bool-cases (is_handed_on J ctx P request)) [
    | inl e ↦ rw e (omega (arith, length-all_handed requests))
    | inr e ↦ rw e (omega (arith, length-all_handed requests))
  ]

module _ (J : Jsoncpp) (P : Protobuf (Telemetry J.Real)) (ctx : Context) where
  all_requests : (requests : List CiscoRequest) → AllReadable J ctx (cisco_hands J ctx P) requests
  all_requests [] = tt
  all_requests (request ∷ requests) = (refl, all_requests requests)

module _ (J : Jsoncpp) (L : IsLawful J) (P : Protobuf (Telemetry J.Real)) (ctx : Context)
    (kafka : ctx.delivery ≡ to_kafka) where
  -- With Kafka, after messages none of which throws, the sequence number has gone on by one for each
  -- message that is handed on, modulo 2^64: a message is neither numbered twice nor passed over, and
  -- the others take no number.
  pub handle_all-sequence_number :
      (requests : List CiscoRequest) (w w' : World)
      → w.sequence_number < 18446744073709551616
      → handle_all (handle_cisco_message J P ctx) requests w ≡ done w'
      → w'.sequence_number ≡ u64 (w.sequence_number + count (is_handed_on J ctx P) requests)
  handle_all-sequence_number requests w w' small h =
      let hands = cisco_hands J ctx P in
      deliver_all-seq J L ctx kafka (all_handed J ctx hands requests) w w' small
        (sym (handle_all-deliver_all J ctx hands requests w (all_requests J P ctx requests)) ∙ h)
      ∙ ap (λ n. u64 (w.sequence_number + n)) (length-all_handed J P ctx requests)
