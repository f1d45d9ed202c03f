-- ===== src/Tests/Served.antt =====
-- A server of Nokia's with two streams, from its configuration file to the end of its queue.
use text.Mathlib.Text.{◌==◌}
use mdt_dialout_collector.Common.{
  ℕ, ◌*◌, ◌≤◌, none, some, List, [], ◌∷◌, ◌++◌, ◌≡◌, refl, arith, true, done, bind, if◌then◌else◌,
}
use mathlib.Core.List.{map}
use mdt_dialout_collector.Common.Number.{pos}
use mdt_dialout_collector.Common.Text.{codes}
use mdt_dialout_collector.Config.Load.{absent, string, Config, Machine}
use mdt_dialout_collector.Fsm.{Completion, failed, completed}
use mdt_dialout_collector.Fsm.Pool.{Slot, run_events, run_fsm}
use mdt_dialout_collector.Fsm.Serve.{handle_all}
use mdt_dialout_collector.Fsm.Phases.{
  Phase, waiting, over, open_with, closing, Hears, silence, report,
}
use mdt_dialout_collector.Fsm.Phases.Runs.{slot_of, run_events-Hears}
use mdt_dialout_collector.Fsm.Phases.Ends.{IsDrained, run_fsm-IsDrained}
use mdt_dialout_collector.Server.Nokia.{NokiaRequest}
use mdt_dialout_collector.Tests.Delivering.{moment}
use mdt_dialout_collector.Tests.Streams.{keep}

-- Two streams are called, and each reads a message.
abbrev heard_events : {M : Type 0} → M → List (ℕ × Completion M)
heard_events m = (0, completed m) ∷ (1, completed m) ∷ (1, completed m) ∷ (0, completed m) ∷ []

-- Then their operations and that of a third are cancelled, and both finish.
abbrev cancel_events : {M : Type 0} → M → List (ℕ × Completion M)
cancel_events m = (2, failed) ∷ (0, failed) ∷ (1, failed) ∷ (1, completed m) ∷ (0, failed) ∷ []

abbrev two_open : List Phase
two_open = open_with 1 ∷ open_with 1 ∷ waiting ∷ []

abbrev all_over : List Phase
all_over = over ∷ over ∷ over ∷ []

abbrev both_heard :
    {M : Type 0} (m : M) → Hears (pos 0) (waiting ∷ []) (heard_events m) (m ∷ m ∷ []) two_open
both_heard m = report 0 waiting (completed m) refl tt (
    report 1 waiting (completed m) refl tt (
      report 1 (open_with 0) (completed m) refl (omega arith)
        (report 0 (open_with 0) (completed m) refl (omega arith) silence)))

abbrev all_cancelled : {M : Type 0} (m : M) → Hears (pos 0) two_open (cancel_events m) [] all_over
all_cancelled m = report 2 waiting failed refl tt (
    report 0 (open_with 1) failed refl tt (
      report 1 (open_with 1) failed refl tt
        (report 1 (closing 1) (completed m) refl tt (report 0 (closing 1) failed refl tt silence))))

run_fsm-IsDrained_example :
    (pool : List Slot) × (run_fsm keep (pos 0) (heard_events 5 ++ cancel_events 5) []
      ≡ done (pool, 5 ∷ 5 ∷ []))
    × (5 ≤ 2 * 3)
    × IsDrained pool
unfolding handle_all
run_fsm-IsDrained_example =
    run_fsm-IsDrained keep (pos 0) (both_heard 5) (all_cancelled 5) (tt, (tt, (tt, (tt, (tt, tt)))))
      [] (5 ∷ 5 ∷ []) refl

run_events-Hears_example :
    run_events keep (pos 0) (heard_events 5) (map slot_of (waiting ∷ [])) []
    ≡ bind (handle_all keep (5 ∷ 5 ∷ []) []) λ w'. done (map slot_of two_open, w')
run_events-Hears_example = run_events-Hears keep (pos 0) (both_heard 5) []

-- A file with one socket, of Nokia, and with Kafka.
abbrev kafka_file : Config
kafka_file key =
    if key == "iface"
    then string "eth0"
    else if key == "socket_nokia"
    then string "0.0.0.0:10007"
    else if key == "topic"
    then string "mdt"
    else if key == "bootstrap_servers"
    then string "broker:9092"
    else if key == "security_protocol"
    then string "plaintext"
    else absent

abbrev kafka_machine : Machine
kafka_machine = record { read_file = λ _. some kafka_file; file_exists = λ _. true }

abbrev publish : NokiaRequest
publish = record { peer = codes "ipv4:192.0.2.7:57400"; update = none; moment = moment }
