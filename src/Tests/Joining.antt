-- ===== src/Tests/Joining.antt =====
-- The threads of the daemon with one worker, from the start to the return of main.
use mdt_dialout_collector.Common.{◌≤◌, true, [], ◌∷◌, ◌≡◌, refl, arith, false, none}
use mdt_dialout_collector.Server.Registry.{cisco, register_server, unregister_server, shutdown}
use mdt_dialout_collector.Server.Bind.{build_server}
use mdt_dialout_collector.Server.Workers.{Process, build, enter, leave, exit, destroy, halt}
use mdt_dialout_collector.Startup.Joins.{
  gave_up, of_workers, halting, returned, success, Threads, work, reload, read_fails, terminate,
  halts, down, poll_end, join, join_poller, join_watcher, Moves, stay, then_moves, started_threads,
}
use mdt_dialout_collector.Startup.Joins.Keeps.{moves_left}
use mdt_dialout_collector.Startup.Joins.Unheard.{AllUp, gave_up-AllUp}
use mdt_dialout_collector.Startup.Joins.Ends.{CanMove, main_returns}
use mdt_dialout_collector.Tests.Workers.{copied, over, over_stuck}

-- The worker serves, and the watcher has read SIGTERM and copied the registry.
abbrev asked : Threads
asked = record (started_threads 1) { process = copied; watcher = halting }

up_to_signal : Moves 3 (started_threads 1) asked
unfolding build_server register_server
up_to_signal =
    then_moves (work (build 0 cisco true refl) refl)
      (then_moves (work (enter 0 refl) refl) (then_moves (terminate refl refl) stay))

abbrev ended : Threads
ended = record {
  process = over;
  watcher = returned;
  zmq_down = true;
  polled = true;
  to_join = [];
  joining = success;
}

up_to_return : Moves 9 asked ended
unfolding shutdown unregister_server
up_to_return = then_moves (halts (halt 0 [] refl refl) 0 [] refl refl refl) (
    then_moves (work (leave 0 refl refl refl) refl) (
      then_moves (work (exit 0 refl) refl) (
        then_moves (work (destroy 0 refl refl) refl) (
          then_moves (down refl refl) (
            then_moves (poll_end refl refl) (
              then_moves (join 0 [] refl refl refl) (
                then_moves (join_poller refl refl refl)
                  (then_moves (join_watcher refl refl) stay))))))))

ended_stuck : ¬ CanMove ended
ended_stuck (u, work step same) = over_stuck (_, step)
ended_stuck (u, reload at) = absurd (cc)
ended_stuck (u, read_fails at) = absurd (cc)
ended_stuck (u, terminate at idle) = absurd (cc)
ended_stuck (u, halts step i rest at running q_rest) = absurd (cc)
ended_stuck (u, down at finished) = absurd (cc)
ended_stuck (u, poll_end z p) = absurd (cc)
ended_stuck (u, join i rest j l g) = absurd (cc)
ended_stuck (u, join_poller j l p) = absurd (cc)
ended_stuck (u, join_watcher j w) = absurd (cc)

main_returns_example : (ended.joining ≡ success) × (9 ≤ moves_left asked)
main_returns_example =
    main_returns 1 3 9 asked ended (0 ∷ []) up_to_signal refl refl (omega arith, tt) up_to_return
      ended_stuck

abbrev up_process : Process
up_process = record copied { call = none }

-- The first read of the watcher fails, and then the worker comes to RunFsm.
abbrev unwatched : Threads
unwatched = record (started_threads 1) { watcher = gave_up }

abbrev left_serving : Threads
left_serving = record unwatched { process = up_process }

up_to_failure : Moves 1 (started_threads 1) unwatched
up_to_failure = then_moves (read_fails refl) stay

behind_failure : Moves 2 unwatched left_serving
unfolding build_server register_server
behind_failure =
    then_moves (work (build 0 cisco true refl) refl) (then_moves (work (enter 0 refl) refl) stay)

gave_up-AllUp_example :
    AllUp up_process × (left_serving.zmq_down ≡ false) × (left_serving.joining ≡ of_workers)
gave_up-AllUp_example = gave_up-AllUp 0 1 2 unwatched left_serving up_to_failure refl behind_failure
