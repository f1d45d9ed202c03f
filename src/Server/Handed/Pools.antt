-- ===== src/Server/Handed/Pools.antt =====
-- What a whole server publishes, with Kafka, for every vendor's handler: all its streams, whose
-- messages come in any order.
use mdt_dialout_collector.Common.{ℕ, ◌<◌, List, [], ◌∷◌, ◌++◌, ◌≡◌, ◌∙◌, ap, All, Partial, done}
use mdt_dialout_collector.Common.Number.{ℤ}
use mdt_dialout_collector.Json.{Jsoncpp, IsLawful}
use mdt_dialout_collector.Labels.Paired.{IsPaired}
use mdt_dialout_collector.Delivery.Kafka.{ProducerRecord}
use mdt_dialout_collector.Fsm.{Completion}
use mdt_dialout_collector.Fsm.Pool.{Slot, run_fsm}
use mdt_dialout_collector.Fsm.Phases.{Phase, waiting, Hears}
use mdt_dialout_collector.Fsm.Phases.Drains.{AllCancelled}
use mdt_dialout_collector.Fsm.Phases.Ends.{IsDrained, run_fsm-IsDrained}
use mdt_dialout_collector.Server.{to_kafka, Context, World}
use mdt_dialout_collector.Server.Handed.{Hands, AllReadable, all_handed, handle_all-deliver_all}
use mdt_dialout_collector.Server.Handed.Published.{IsFit, Served, deliver_all-IsServed}

module _ (J : Jsoncpp) (L : IsLawful J) (ctx : Context) {M : Type 0} (h : Hands J ctx M) where
  -- The run of a server has served some messages, and its streams have been drained.
  abbrev pub ServedAll : List M → World → Partial (List Slot × World) → Type 0
  ServedAll ms w result =
      (w' : World) × (records : List ProducerRecord) × (pool : List Slot) × (result
        ≡ done (pool, w'))
      × Served J L ctx (all_handed J ctx h ms) w w' records
      × IsDrained pool

  -- With Kafka, over a jsoncpp that keeps its documentation, for the handler of any vendor. Let the
  -- queue of a server give any legal reports of its streams, the last of which are those of
  -- cancelled operations; let the handler be able to read the messages that they bring, let all that
  -- is handed on for them come from peers whose port is a number and have no body that is nested too
  -- deep for jsoncpp's reader, and let the label map give two labels to each of its addresses. Then no
  -- exception leaves RunFsm. The producer has been given one record for each body that is handed on
  -- and that it accepts, in the order in which the queue has reported the messages, whichever
  -- streams they belong to; each body handed on has taken one sequence number, the next modulo 2^64,
  -- and the label map is as before. At the end every stream has been deleted, unless the queue has
  -- an operation left to report.
  pub run_fsm-ServedAll :
      (limit : ℤ) {ps qs : List Phase} {events cancels : List (ℕ × Completion M)} {ms ns : List M}
      → ctx.delivery ≡ to_kafka
      → ctx.max_replies ≡ limit
      → Hears limit (waiting ∷ []) events ms ps
      → (off : Hears limit ps cancels ns qs) → AllCancelled limit off
      → (w : World) → AllReadable J ctx h ms
      → All (IsFit J) (all_handed J ctx h ms)
      → IsPaired w.label_map
      → w.sequence_number < 18446744073709551616
      → ServedAll ms w (run_fsm h.handler ctx.max_replies (events ++ cancels) w)
  run_fsm-ServedAll limit {events = events} {cancels = cancels} {ms = ms} kafka limited heard off
        cancelled w readable ports paired seq =
      let (w', records, delivered, served) =
        deliver_all-IsServed J L ctx (all_handed J ctx h ms) w kafka ports paired seq in
      let (pool, run, _, drained) =
        run_fsm-IsDrained h.handler limit heard off cancelled w w'
          (handle_all-deliver_all J ctx h ms w readable ∙ delivered) in
      (
        w',
        records,
        pool,
        ap (λ n. run_fsm h.handler n (events ++ cancels) w) limited ∙ run,
        served,
        drained,
      )
