-- ===== src/Startup/Joins/Ends.antt =====
-- main returns after SIGTERM, whatever the order of the threads.
use mdt_dialout_collector.Common.{
  ℕ, ◌≤◌, Bool, true, none, some, Option, List, [], ◌∷◌, get_elem?, ◌≡◌, refl, arith, All,
  Bool-cases, ◌⊎◌, inl, inr,
}
use mdt_dialout_collector.Server.Workers.{
  gone, Process, Step, build, enter, leave, exit, destroy, snapshot, halt, Run,
}
use mdt_dialout_collector.Server.Workers.Invariant.{times, IsSound}
use mdt_dialout_collector.Server.Workers.Progress.{CanStep, step_or_Rests}
use mdt_dialout_collector.Server.Workers.Ends.{
  started_workers, started_workers-IsSound, Run-IsSound, shutdown_completes,
}
use mdt_dialout_collector.Startup.Joins.{
  Watcher, reading, halting, returned, gave_up, Joining, of_workers, of_watcher, success, Threads,
  Move, work, halts, down, poll_end, join, join_poller, join_watcher, Moves, started_threads,
}
use mdt_dialout_collector.Startup.Joins.Keeps.{
  WatcherFits, Fits, Moves-Run, Moves-Fits, Moves-All, begun, call_begun, moves_left,
  Moves-moves_left,
}

abbrev pub CanMove : Threads → Type 0
CanMove t = (u : Threads) × Move t u

-- A watcher that is to shut a server down is in initiate_shutdown.
is_halting :
    (w : Watcher) (call : Option (List ℕ)) (z : Bool) (i : ℕ) (rest : List ℕ)
    → WatcherFits w call z
    → call ≡ some (i ∷ rest)
    → w ≡ halting
is_halting reading call z i rest fits h = absurd (cc)
is_halting gave_up call z i rest fits h = absurd (cc)
is_halting halting call z i rest fits h = refl
is_halting returned call z i rest (finished, _) h = absurd (cc)

Step-CanMove :
    (t : Threads) (q : Process) → Fits t → begun t.watcher ≡ true → Step t.process q → CanMove t
Step-CanMove t _ fits on (build i vendor started at) = (_, work (build i vendor started at) refl)
Step-CanMove t _ fits on (enter i at) = (_, work (enter i at) refl)
Step-CanMove t _ fits on (leave i at found is_down) = (_, work (leave i at found is_down) refl)
Step-CanMove t _ fits on (exit i at) = (_, work (exit i at) refl)
Step-CanMove t _ fits on (destroy i at h) = (_, work (destroy i at h) refl)
Step-CanMove t _ fits on (snapshot idle) =
    absurd (never t.watcher t.process.call t.zmq_down fits on idle)
  where
    never :
        (w : Watcher) (call : Option (List ℕ)) (z : Bool)
        → WatcherFits w call z
        → begun w ≡ true
        → call ≡ none
        → ⊥
    never reading call z fits on idle = cc
    never gave_up call z fits on idle = cc
    never halting call z (rest, running) on idle = cc
    never returned call z (finished, _) on idle = cc
Step-CanMove t _ fits on (halt i rest running h) = (
  _,
  halts (halt i rest running h) i rest
      (is_halting t.watcher t.process.call t.zmq_down i rest fits running) running refl,
)

-- The watcher that has nothing left to shut down.
watcher_done :
    (t : Threads)
    → Fits t
    → begun t.watcher ≡ true
    → t.process.call ≡ some []
    → CanMove t ⊎ ((t.watcher ≡ returned) × (t.zmq_down ≡ true))
watcher_done t fits on finished = by_watcher t.watcher refl fits
  where
    by_watcher :
        (w : Watcher)
        → t.watcher ≡ w
        → WatcherFits w t.process.call t.zmq_down
        → CanMove t ⊎ ((t.watcher ≡ returned) × (t.zmq_down ≡ true))
    by_watcher reading at fits' = absurd (ground arith)
    by_watcher gave_up at fits' = absurd (ground arith)
    by_watcher halting at fits' = inl (_, down at finished)
    by_watcher returned at (_, off) = inr (at, off)

-- main, where the others have come to their end.
main_moves :
    (t : Threads)
    → t.watcher ≡ returned
    → t.polled ≡ true
    → All (λ i. get_elem? t.process.places i ≡ some gone) t.to_join
    → CanMove t ⊎ (t.joining ≡ success)
main_moves t over polled gone_all = by_joining t.joining refl t.to_join refl gone_all
  where
    by_joining :
        (j : Joining)
        → t.joining ≡ j
        → (ws : List ℕ) → t.to_join ≡ ws
        → All (λ i. get_elem? t.process.places i ≡ some gone) ws
        → CanMove t ⊎ (t.joining ≡ success)
    by_joining of_workers at [] all_joined _ = inl (_, join_poller at all_joined polled)
    by_joining of_workers at (i ∷ ws) left (is_gone, _) = inl (_, join i ws at left is_gone)
    by_joining of_watcher at ws left _ = inl (_, join_watcher at (rw over refl))
    by_joining success at ws left _ = inr at

-- The workers that the call has shut down are gone, where nothing can move.
All-gone :
    (workers k l : ℕ) (p q : Process) (rest is : List ℕ)
    → Run k (started_workers workers) p
    → p.call ≡ some rest
    → Run l p q
    → ¬ CanStep q
    → All (λ i. 1 ≤ times i rest) is
    → All (λ i. get_elem? q.places i ≡ some gone) is
All-gone workers k l p q rest [] before running run stuck _ = tt
All-gone workers k l p q rest (i ∷ is) before running run stuck (waits, others) =
    let (is_gone, _) = shutdown_completes workers k l p q i rest before running waits run stuck in
    (is_gone, All-gone workers k l p q rest is before running run stuck others)

stuck_success :
    (u : Threads) (rest : List ℕ)
    → IsSound u.process
    → Fits u
    → begun u.watcher ≡ true
    → u.process.call ≡ some rest
    → ¬ CanMove u
    → All (λ i. get_elem? u.process.places i ≡ some gone) u.to_join
    → u.joining ≡ success
stuck_success u rest sound fits on running stuck gone_all =
    elim (step_or_Rests u.process rest 0 sound running) [
      | inl (q, step) ↦ absurd (stuck (Step-CanMove u q fits on step))
      | inr (finished, _) ↦ elim (watcher_done u fits on (rw finished at running)) [
        | inl can ↦ absurd (stuck can)
        | inr (over, off) ↦ elim (Bool-cases u.polled) [
          | inr not_yet ↦ absurd (stuck (_, poll_end off not_yet))
          | inl polled ↦ elim (main_moves u over polled gone_all) [
            | inl can ↦ absurd (stuck can)
            | inr returns ↦ returns
          ]
        ]
      ]
    ]

-- From the start of the daemon's threads, whatever their order: let the watcher have read SIGTERM or
-- SIGINT, and let initiate_shutdown still have to shut down each worker that main has yet to join.
-- Then the threads have no more moves before them than those that are left, and where they have come
-- so far that none can move, main has joined the workers, the poller and the watcher, and has
-- returned EXIT_SUCCESS.
pub main_returns :
    (workers m n : ℕ) (t u : Threads) (rest : List ℕ)
    → Moves m (started_threads workers) t
    → begun t.watcher ≡ true
    → t.process.call ≡ some rest
    → All (λ i. 1 ≤ times i rest) t.to_join
    → Moves n t u
    → ¬ CanMove u
    → (u.joining ≡ success) × (n ≤ moves_left t)
main_returns workers m n t u rest before on running waits after stuck =
    let start = started_threads workers in
    let (k, run_before) = Moves-Run m start t before in
    let (l, run_after) = Moves-Run n t u after in
    let fits = Moves-Fits m start t before refl in
    let (counted, on') = Moves-moves_left n t u fits on after in
    let fits' = Moves-Fits n t u after fits in
    let sound = Run-IsSound l t.process u.process run_after (
      Run-IsSound k (started_workers workers) t.process run_before
        (started_workers-IsSound workers)) in
    let no_step : ¬ CanStep u.process = λ (q, step). stuck (Step-CanMove u q fits' on' step) in
    let still = Moves-All (λ i. 1 ≤ times i rest) n t u after waits in
    let (rest', running') = call_begun u.watcher u.process.call u.zmq_down fits' on' in
    (
      stuck_success u rest' sound fits' on' running' stuck (
          All-gone workers k l t.process u.process rest u.to_join run_before running run_after
            no_step still),
      omega (arith, counted),
    )
