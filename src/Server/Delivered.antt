-- ===== src/Server/Delivered.antt =====
-- What deliver_payload leaves behind.
use mdt_dialout_collector.Common.{
  Bool, Option, none, some, List, [], ◌∷◌, ◌++◌, if◌then◌else◌, done, ◌≡◌, arith, bind-eq-done,
  done-injective, subst, sym, ◌∙◌, ap,
}
use mdt_dialout_collector.Common.Text.{Bytes, is_empty}
use mdt_dialout_collector.Json.{Jsoncpp, IsLawful}
use mdt_dialout_collector.Labels.{LabelMap}
use mdt_dialout_collector.Payload.Envelope.{build_envelope}
use mdt_dialout_collector.Payload.Envelope.Members.{Envelope, build_envelope-Envelope}
use mdt_dialout_collector.Delivery.Kafka.{KafkaDelivery, ProducerRecord, async_kafka_producer}
use mdt_dialout_collector.Server.{to_kafka, Context, World, Moment, to_producer, deliver_payload}

-- The label map that the envelope is given.
abbrev pub labels_for : Context → World → Option LabelMap
labels_for ctx w = if ctx.label_encode then some w.label_map else none

-- A world with one more record, of a text under an address.
abbrev Published : Context → Bytes → Bytes → World → World → Type 0
Published ctx peer_ip out w w' =
    w'.records ≡ w.records ++ (record { topic = ctx.kafka.topic; key = peer_ip; value = out } ∷ [])

module _ (J : Jsoncpp) (L : IsLawful J) (ctx : Context) (m : Moment) where
  async_kafka_producer_lem :
      (k : KafkaDelivery) (accepts : Bool) (peer out : Bytes) (records : List ProducerRecord)
      → (async_kafka_producer k accepts peer out records).1 ≡ (
          if is_empty out
          then records
          else if accepts
          then records ++ (record { topic = k.topic; key = peer; value = out } ∷ [])
          else records)
  unfolding async_kafka_producer
  async_kafka_producer_lem k accepts peer out records = ground arith

  -- With Kafka, a delivery that does not throw makes one envelope of the body. It gives the
  -- producer one record, under the peer's address, with that envelope as its value, where the
  -- producer accepts it and the envelope is not the empty text, and no record otherwise; either way
  -- the sequence number goes on by one, modulo 2^64, and the label map, the DataWrapper and the ZMQ
  -- payloads stay as they are.
  pub deliver_payload-Envelope :
      (body peer_ip peer_port : Bytes) (w w' : World)
      → ctx.delivery ≡ to_kafka
      → deliver_payload J ctx m body peer_ip peer_port w ≡ done w'
      → (out : Bytes) × Envelope J body peer_ip peer_port
          (labels_for ctx w)
          ctx.writer_id
          m.now
          w.sequence_number
          (out, w'.sequence_number)
        × (w'.records ≡ (
            if is_empty out
            then w.records
            else if m.accepts
            then w.records ++ (record { topic = ctx.kafka.topic; key = peer_ip; value = out } ∷ [])
            else w.records))
        × (w'.label_map ≡ w.label_map)
        × (w'.data_wrapper ≡ w.data_wrapper)
        × (w'.zmq ≡ w.zmq)
  unfolding deliver_payload to_producer
  deliver_payload-Envelope body peer_ip peer_port w w' kafka h =
      let e : to_producer J ctx m body peer_ip peer_port w ≡ done w' = ground arith in
      let ((out, seq), built, finished) =
        bind-eq-done
          (build_envelope J body peer_ip peer_port (labels_for ctx w) ctx.writer_id m.now
            w.sequence_number)
          _ e in
      let e' = done-injective finished in
      (
        out,
        subst
            (λ n.
              Envelope J body peer_ip peer_port (labels_for ctx w) ctx.writer_id m.now
                w.sequence_number (out, n))
            (ap (λ v. v.sequence_number) e')
            (build_envelope-Envelope J L body peer_ip peer_port (labels_for ctx w) ctx.writer_id
              m.now w.sequence_number built),
        sym (ap (λ v. v.records) e')
            ∙ async_kafka_producer_lem ctx.kafka m.accepts peer_ip out w.records,
        sym (ap (λ v. v.label_map) e'),
        sym (ap (λ v. v.data_wrapper) e'),
        sym (ap (λ v. v.zmq) e'),
      )
