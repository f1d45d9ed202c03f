-- ===== src/Startup/Joins/Keeps.antt =====
-- What every move of the daemon's threads keeps, and what it takes from what is left to do.
use mdt_dialout_collector.Common.{
  ℕ, suc, ◌+◌, Bool, true, false, none, some, Option, List, [], ◌∷◌, length, ◌≡◌, refl, arith, All,
}
use mdt_dialout_collector.Server.Workers.{snapshot, Run, here, next}
use mdt_dialout_collector.Server.Workers.Progress.{to_go, Step-to_go}
use mdt_dialout_collector.Server.Workers.Binds.{append_runs}
use mdt_dialout_collector.Startup.Joins.{
  Watcher, reading, halting, returned, gave_up, Joining, of_workers, of_watcher, success, Threads,
  Move, work, reload, read_fails, terminate, halts, down, poll_end, join, join_poller, join_watcher,
  Moves, stay, then_moves,
}

-- What the watcher has done so far to the registry and to the ZMQ context.
abbrev pub WatcherFits : Watcher → Option (List ℕ) → Bool → Type 0
WatcherFits reading call zmq_down = call ≡ none
WatcherFits gave_up call zmq_down = call ≡ none
WatcherFits halting call zmq_down = (rest : List ℕ) × (call ≡ some rest)
WatcherFits returned call zmq_down = (call ≡ some []) × (zmq_down ≡ true)

abbrev pub Fits : Threads → Type 0
Fits t = WatcherFits t.watcher t.process.call t.zmq_down

pub Move-Fits : (t u : Threads) → Move t u → Fits t → Fits u
Move-Fits t _ (work step same) fits = rw same fits
Move-Fits t _ (reload at) fits = fits
Move-Fits t _ (read_fails at) fits = rw at at fits
Move-Fits t _ (terminate at idle) fits = (_, refl)
Move-Fits t _ (halts step i rest at running q_rest) fits = rw at (rest, q_rest)
Move-Fits t _ (down at finished) fits = (finished, refl)
Move-Fits t _ (poll_end z p) fits = fits
Move-Fits t _ (join i rest j l g) fits = fits
Move-Fits t _ (join_poller j l p) fits = fits
Move-Fits t _ (join_watcher j w) fits = fits

-- A move is a step of the workers and of the call, or none.
pub Move-Run : (t u : Threads) → Move t u → (k : ℕ) × Run k t.process u.process
Move-Run t _ (work step same) = (1, next step here)
Move-Run t _ (reload at) = (0, here)
Move-Run t _ (read_fails at) = (0, here)
Move-Run t _ (terminate at idle) = (1, next (snapshot idle) here)
Move-Run t _ (halts step i rest at running q_rest) = (1, next step here)
Move-Run t _ (down at finished) = (0, here)
Move-Run t _ (poll_end z p) = (0, here)
Move-Run t _ (join i rest j l g) = (0, here)
Move-Run t _ (join_poller j l p) = (0, here)
Move-Run t _ (join_watcher j w) = (0, here)

pub Moves-Run : (n : ℕ) (t u : Threads) → Moves n t u → (k : ℕ) × Run k t.process u.process
Moves-Run n t u stay = (0, here)
Moves-Run n t u (then_moves {u = v} move rest) =
    let (k, first) = Move-Run t v move in
    let (l, others) = Moves-Run _ v u rest in
    (k + l, append_runs k l t.process v.process u.process first others)

pub Moves-Fits : (n : ℕ) (t u : Threads) → Moves n t u → Fits t → Fits u
Moves-Fits n t u stay fits = fits
Moves-Fits n t u (then_moves {u = v} move rest) fits =
    Moves-Fits _ v u rest (Move-Fits t v move fits)

-- Of the workers to join none is added.
pub Move-All : (P : ℕ → Type 0) (t u : Threads) → Move t u → All P t.to_join → All P u.to_join
Move-All P t _ (work step same) all = all
Move-All P t _ (reload at) all = all
Move-All P t _ (read_fails at) all = all
Move-All P t _ (terminate at idle) all = all
Move-All P t _ (halts step i rest at running q_rest) all = all
Move-All P t _ (down at finished) all = all
Move-All P t _ (poll_end z p) all = all
Move-All P t _ (join i rest j l g) all = let both = rw l at all in both.1
Move-All P t _ (join_poller j l p) all = all
Move-All P t _ (join_watcher j w) all = all

pub Moves-All :
    (P : ℕ → Type 0) (n : ℕ) (t u : Threads) → Moves n t u → All P t.to_join → All P u.to_join
Moves-All P n t u stay all = all
Moves-All P n t u (then_moves {u = v} move rest) all =
    Moves-All P _ v u rest (Move-All P t v move all)

-- Whether the watcher has read SIGTERM or SIGINT.
abbrev pub begun : Watcher → Bool
begun reading = false
begun halting = true
begun returned = true
begun gave_up = false

abbrev watcher_left : Watcher → ℕ
watcher_left reading = 1
watcher_left halting = 1
watcher_left returned = 0
watcher_left gave_up = 0

abbrev poller_left : Bool → ℕ
poller_left false = 1
poller_left true = 0

abbrev main_left : Joining → ℕ
main_left of_workers = 2
main_left of_watcher = 1
main_left success = 0

-- The moves that are left once the watcher has read the signal.
abbrev pub moves_left : Threads → ℕ
moves_left t =
    to_go t.process
    + watcher_left t.watcher
    + poller_left t.polled
    + length t.to_join
    + main_left t.joining

pub call_begun :
    (w : Watcher) (call : Option (List ℕ)) (z : Bool)
    → WatcherFits w call z
    → begun w ≡ true
    → (rest : List ℕ) × (call ≡ some rest)
call_begun reading call z fits on = absurd (cc)
call_begun gave_up call z fits on = absurd (cc)
call_begun halting call z fits on = fits
call_begun returned call z (finished, _) on = ([], finished)

Move-moves_left :
    (t u : Threads)
    → Fits t
    → begun t.watcher ≡ true
    → Move t u
    → (suc (moves_left u) ≡ moves_left t) × (begun u.watcher ≡ true)
Move-moves_left t _ fits on (work {q = q} step same) =
    let (rest, call) = call_begun t.watcher t.process.call t.zmq_down fits on in
    let (one, _, _) = Step-to_go t.process q rest call step in (omega (arith, one), on)
Move-moves_left t _ fits on (reload at) = absurd (ground arith)
Move-moves_left t _ fits on (read_fails at) = absurd (ground arith)
Move-moves_left t _ fits on (terminate at idle) = absurd (ground arith)
Move-moves_left t _ fits on (halts {q = q} step i rest at running q_rest) =
    let (one, _, _) = Step-to_go t.process q (i ∷ rest) running step in (omega (arith, one), on)
Move-moves_left t _ fits on (down at finished) = (ground arith, refl)
Move-moves_left t _ fits on (poll_end z p) = (ground arith, on)
Move-moves_left t _ fits on (join i rest j l g) = (ground arith, on)
Move-moves_left t _ fits on (join_poller j l p) = (ground arith, on)
Move-moves_left t _ fits on (join_watcher j w) = (ground arith, on)

pub Moves-moves_left :
    (n : ℕ) (t u : Threads)
    → Fits t
    → begun t.watcher ≡ true
    → Moves n t u
    → (n + moves_left u ≡ moves_left t) × (begun u.watcher ≡ true)
Moves-moves_left n t u fits on stay = (omega arith, on)
Moves-moves_left n t u fits on (then_moves {u = v} move rest) =
    let (one, on') = Move-moves_left t v fits on move in
    let (more, on'') = Moves-moves_left _ v u (Move-Fits t v move fits) on' rest in
    (omega (arith, one, more), on'')
