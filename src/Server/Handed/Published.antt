-- ===== src/Server/Handed/Published.antt =====
-- What becomes of all that is handed on, with Kafka.
use mdt_dialout_collector.Common.{
  ℕ, ◌+◌, ◌<◌, Bool, true, false, Option, none, some, List, [], ◌∷◌, ◌++◌, if◌then◌else◌, Partial,
  done, ◌≡◌, refl, sym, ◌∙◌, ap, arith, All, length, Option-cases, inl, inr, subst,
}
use mathlib.Core.List.{append_assoc, append-nil}
use mdt_dialout_collector.Common.Number.{ℤ, u64, stoi}
use mdt_dialout_collector.Common.Text.{Bytes, is_empty}
use mdt_dialout_collector.Json.{Jsoncpp, IsLawful}
use mdt_dialout_collector.Labels.{LabelMap, find_label}
use mdt_dialout_collector.Labels.Paired.{ArePair, IsPaired, find_label-ArePair}
use mdt_dialout_collector.Payload.Envelope.{label_value, build_envelope}
use mdt_dialout_collector.Payload.Envelope.Members.{EnvelopeBase, Envelope, telemetry_value_read}
use mdt_dialout_collector.Delivery.Kafka.{ProducerRecord}
use mdt_dialout_collector.Server.{to_kafka, Context, World, to_producer, deliver_payload}
use mdt_dialout_collector.Server.Delivered.{labels_for, deliver_payload-Envelope}
use mdt_dialout_collector.Server.Handed.{Delivery, deliver, deliver_all}
use mdt_dialout_collector.Server.Handed.Numbered.{u64-suc}

-- The port of the peer is the text of a number, as `std::stoi` reads it, and jsoncpp's reader does not
-- throw for the body.
abbrev pub IsFit : Jsoncpp → Delivery → Type 0
IsFit J d = ((port : ℤ) × (stoi d.peer_port ≡ done port)) × (J.too_deep d.body ≡ false)

module _ (J : Jsoncpp) (ctx : Context) where
  -- The records that are made of deliveries: one for each that the producer accepts, in order, whose
  -- key is the address of the peer and whose value is the envelope of the body, with the number
  -- behind that of the delivery before.
  abbrev pub Published : Option LabelMap → ℕ → List Delivery → List ProducerRecord → Type 0
  Published labels before [] records = records ≡ []
  Published labels before (d ∷ ds) records =
      (out : Bytes) × (rest : List ProducerRecord) × Envelope J d.body d.peer_ip d.peer_port labels
        ctx.writer_id d.moment.now before (out, u64 (before + 1))
      × (records ≡ (
          if d.moment.accepts
          then record { topic = ctx.kafka.topic; key = d.peer_ip; value = out } ∷ rest
          else rest))
      × Published labels (u64 (before + 1)) ds rest

module _ (J : Jsoncpp) (L : IsLawful J) (ctx : Context) where
  label_value_pair :
      (v : List Bytes) → ArePair v → (l : J.Value) × (label_value J (some v) ≡ done l)
  unfolding label_value
  label_value_pair v (n, p, e) = rw e (_, refl)

  label_value_total :
      (ip : Bytes) (m : LabelMap)
      → IsPaired m
      → (l : J.Value) × (label_value J (find_label ip m) ≡ done l)
  unfolding label_value
  label_value_total ip m all = elim (Option-cases (find_label ip m)) [
    | inl missing ↦ rw missing (_, refl)
    | inr (v, found) ↦ rw found (label_value_pair v (find_label-ArePair ip m all found))
  ]

  build_envelope_total :
      (d : Delivery) (labels : Bool) (m : LabelMap) (before : ℕ)
      → IsFit J d
      → IsPaired m
      → (result : Bytes × ℕ) × (build_envelope J d.body d.peer_ip d.peer_port
            (if labels then some m else none)
            ctx.writer_id
            d.moment.now
            before
          ≡ done result)
  unfolding build_envelope
  build_envelope_total d false m before ((port, read), shallow) all =
      rw (read, telemetry_value_read J d.body shallow) (_, refl)
  build_envelope_total d true m before ((port, read), shallow) all =
      let (l, found) = label_value_total d.peer_ip m all in
      rw (read, telemetry_value_read J d.body shallow, found) (_, refl)

  deliver_total :
      (d : Delivery) (w : World)
      → ctx.delivery ≡ to_kafka
      → IsFit J d
      → IsPaired w.label_map
      → (w' : World) × (deliver J ctx d w ≡ done w')
  unfolding deliver_payload to_producer
  deliver_total d w kafka port all =
      let (result, built) =
        build_envelope_total d ctx.label_encode w.label_map w.sequence_number port all in
      rw (kafka, built) (_, refl)

  -- One delivery.
  abbrev Delivered : Delivery → World → World → Type 0
  Delivered d w w' =
      (out : Bytes) × Envelope J d.body d.peer_ip d.peer_port (labels_for ctx w) ctx.writer_id
        d.moment.now w.sequence_number (out, u64 (w.sequence_number + 1))
      × (w'.records ≡ (
          if d.moment.accepts
          then w.records ++ (record { topic = ctx.kafka.topic; key = d.peer_ip; value = out } ∷ [])
          else w.records))
      × (w'.label_map ≡ w.label_map)
      × (w'.sequence_number ≡ u64 (w.sequence_number + 1))

  deliver-Delivered :
      (d : Delivery) (w w' : World)
      → ctx.delivery ≡ to_kafka
      → deliver J ctx d w ≡ done w'
      → Delivered d w w'
  deliver-Delivered d w w' kafka h =
      let (out, (root, port, text, seq, read, base, label), records, labels, _, _) =
        deliver_payload-Envelope J L ctx d.moment d.body d.peer_ip d.peer_port w w' kafka h in
      let filled : is_empty out ≡ false = ap is_empty text ∙ L.write_not_empty root in
      let numbered =
        subst (EnvelopeBase J root d.body d.peer_ip ctx.writer_id port d.moment.now) seq base in
      (out, (root, port, text, refl, read, numbered, label), rw filled at records, labels, seq)

  deliver_all-cons :
      (d : Delivery) (ds : List Delivery) (w w1 : World)
      → deliver J ctx d w ≡ done w1
      → deliver_all J ctx (d ∷ ds) w ≡ deliver_all J ctx ds w1
  unfolding deliver_all
  deliver_all-cons d ds w w1 h = rw h refl

  append_if :
      (test : Bool) (xs ys rest : List ProducerRecord) (x : ProducerRecord)
      → ys ≡ (if test then xs ++ (x ∷ []) else xs)
      → ys ++ rest ≡ xs ++ (if test then x ∷ rest else rest)
  append_if true xs ys rest x h = ap (λ zs. zs ++ rest) h ∙ append_assoc xs (x ∷ []) rest
  append_if false xs ys rest x h = ap (λ zs. zs ++ rest) h

  -- All deliveries have been made, and these records published.
  abbrev pub Served : List Delivery → World → World → List ProducerRecord → Type 0
  Served ds w w' records =
      (w'.records ≡ w.records ++ records)
      × Published J ctx (labels_for ctx w) w.sequence_number ds records
      × (w'.sequence_number ≡ u64 (w.sequence_number + length ds))
      × (w'.label_map ≡ w.label_map)

  abbrev pub IsServed : List Delivery → World → Partial World → Type 0
  IsServed ds w result =
      (w' : World) × (records : List ProducerRecord) × (result ≡ done w') × Served ds w w' records

  labels_for_same :
      (w w1 : World) → w1.label_map ≡ w.label_map → labels_for ctx w1 ≡ labels_for ctx w
  labels_for_same w w1 same = ap (λ m. if ctx.label_encode then some m else none) same

  cons-IsServed :
      (d : Delivery) (ds : List Delivery) (w w1 : World)
      → deliver J ctx d w ≡ done w1
      → Delivered d w w1
      → IsServed ds w1 (deliver_all J ctx ds w1)
      → IsServed (d ∷ ds) w (deliver_all J ctx (d ∷ ds) w)
  cons-IsServed d ds w w1 e1 (out, envelope, records1, labels1, seq1)
        (w2, rest, e2, (records2, published, seq2, labels2)) =
      (
        w2,
        if d.moment.accepts
            then record { topic = ctx.kafka.topic; key = d.peer_ip; value = out } ∷ rest
            else rest,
        deliver_all-cons d ds w w1 e1 ∙ e2,
        (
          records2
              ∙ append_if d.moment.accepts w.records w1.records rest
                  (record { topic = ctx.kafka.topic; key = d.peer_ip; value = out }) records1,
          (
            out,
            rest,
            envelope,
            refl,
            subst (λ n. Published J ctx (labels_for ctx w) n ds rest) seq1
                (subst (λ labels. Published J ctx labels w1.sequence_number ds rest)
                  (labels_for_same w w1 labels1) published),
          ),
          seq2 ∙ ap (λ n. u64 (n + length ds)) seq1 ∙ u64-suc w.sequence_number (length ds),
          labels2 ∙ labels1,
        ),
      )

  pub deliver_all-IsServed :
      (ds : List Delivery) (w : World)
      → ctx.delivery ≡ to_kafka
      → All (IsFit J) ds
      → IsPaired w.label_map
      → w.sequence_number < 18446744073709551616
      → IsServed ds w (deliver_all J ctx ds w)
  unfolding deliver_all
  deliver_all-IsServed [] w kafka ports paired small =
      (w, [], refl, (sym (append-nil w.records), refl, omega arith, refl))
  deliver_all-IsServed (d ∷ ds) w kafka (port, ports) paired small =
      let (w1, e1) = deliver_total d w kafka port paired in
      let delivered = deliver-Delivered d w w1 kafka e1 in
      cons-IsServed d ds w w1 e1 delivered (
        deliver_all-IsServed ds w1 kafka ports (subst IsPaired (sym delivered.3) paired)
          (omega (arith, delivered.4)))
