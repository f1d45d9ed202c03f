-- ===== src/Server/Handed/Streams.antt =====
-- What a whole stream of messages publishes, with Kafka, for every vendor's handler.
use mathlib.Core.List.{map}
use mdt_dialout_collector.Common.{
  ℕ, ◌≤◌, ◌<◌, Option, none, List, ◌∷◌, ◌++◌, ◌≡◌, ◌∙◌, ap, length, All, Partial, done, bind,
}
use mdt_dialout_collector.Common.Number.{pos, int_max}
use mdt_dialout_collector.Json.{Jsoncpp, IsLawful}
use mdt_dialout_collector.Labels.Paired.{IsPaired}
use mdt_dialout_collector.Delivery.Kafka.{ProducerRecord}
use mdt_dialout_collector.Fsm.{Stream, new_stream, Completion, completed}
use mdt_dialout_collector.Fsm.Serve.{handle_all, run_stream, run_stream_limited}
use mdt_dialout_collector.Server.{to_kafka, Context, World}
use mdt_dialout_collector.Server.Handed.{
  Hands, AllReadable, all_handed, deliver_all, handle_all-deliver_all,
}
use mdt_dialout_collector.Server.Handed.Published.{IsFit, Served, IsServed, deliver_all-IsServed}

module _ (J : Jsoncpp) (L : IsLawful J) (ctx : Context) {M : Type 0} (h : Hands J ctx M) where
  -- A stream over messages that are all served deletes itself.
  ended :
      (ms : List M) (w : World) (run : Partial (Option Stream × World))
      → AllReadable J ctx h ms
      → run ≡ bind (handle_all h.handler ms w) (λ w'. done (none, w'))
      → IsServed J L ctx (all_handed J ctx h ms) w (deliver_all J ctx (all_handed J ctx h ms) w)
      → (w' : World) × (records : List ProducerRecord) × (run ≡ done (none, w'))
        × Served J L ctx (all_handed J ctx h ms) w w' records
  ended ms w run readable e (w', records, delivered, served) = (
    w',
    records,
    e
        ∙ ap (λ r. bind r (λ v. done (none, v)))
            (handle_all-deliver_all J ctx h ms w readable ∙ delivered),
    served,
  )

  -- With Kafka, over a jsoncpp that keeps its documentation, for the handler of any vendor. Let a
  -- stream with a limit of n messages, where n is at least 1 and an int, be called and get n
  -- messages that the handler can read, let all that is handed on for them come from peers whose port
  -- is a number and have no body that is nested too deep for jsoncpp's reader, and let the label map
  -- give two labels to each of its addresses. Then no exception leaves the stream, and it
  -- deletes itself at the next report, whatever that report holds. The producer has been given, in
  -- order, one record for each body that is handed on and that it accepts, under the address of the
  -- peer, with the envelope of that body; each body handed on has taken one sequence number, the
  -- next modulo 2^64, and the label map is as before.
  pub run_stream-Served :
      (n : ℕ) (call : M) (ms : List M) (c : Completion M) (cs : List (Completion M)) (w : World)
      → ctx.delivery ≡ to_kafka
      → ctx.max_replies ≡ pos n
      → length ms ≡ n
      → 0 < n
      → n ≤ int_max
      → AllReadable J ctx h ms
      → All (IsFit J) (all_handed J ctx h ms)
      → IsPaired w.label_map
      → w.sequence_number < 18446744073709551616
      → (w' : World) × (records : List ProducerRecord) × (run_stream h.handler ctx.max_replies
            (completed call ∷ (map completed ms ++ (c ∷ cs)))
            new_stream
            w
          ≡ done (none, w'))
        × Served J L ctx (all_handed J ctx h ms) w w' records
  run_stream-Served n call ms c cs w kafka limit all some_ms small readable ports paired seq =
      let reports = completed call ∷ (map completed ms ++ (c ∷ cs)) in
      ended ms w (run_stream h.handler ctx.max_replies reports new_stream w) readable
        (ap (λ m. run_stream h.handler m reports new_stream w) limit
          ∙ run_stream_limited h.handler n call ms c cs w all some_ms small)
        (deliver_all-IsServed J L ctx (all_handed J ctx h ms) w kafka ports paired seq)
