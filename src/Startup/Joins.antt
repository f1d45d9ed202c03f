-- ===== src/Startup/Joins.antt =====
-- The threads of the daemon together, one step at a time and in any order: main, which joins the
-- others, the signal watcher, the ZMQ poller and the workers. A step of the label map's reload
-- changes nothing here: it is in Watch.
pub mod Keeps
pub mod Ends
pub mod Unheard
use mdt_dialout_collector.Common.{
  ℕ, zero, suc, ◌+◌, Bool, true, false, none, some, List, [], ◌∷◌, get_elem?, ◌≡◌, done,
}
use mdt_dialout_collector.Server.Registry.{shutdown}
use mdt_dialout_collector.Server.Workers.{gone, Process, Step}
use mdt_dialout_collector.Server.Workers.Ends.{started_workers}

-- Where the signal watcher stands: it waits for a signal, is in initiate_shutdown, has returned behind
-- it, or has returned because `read` gave no byte.
pub data Watcher : Type 0 where
  reading halting returned gave_up : Watcher

abbrev pub has_ended : Watcher → Bool
has_ended reading = false
has_ended halting = false
has_ended returned = true
has_ended gave_up = true

-- Where main stands: it joins the workers and then the poller, joins the watcher, or has returned
-- EXIT_SUCCESS.
pub data Joining : Type 0 where
  of_workers of_watcher success : Joining

-- The workers and the registry, the watcher, whether the ZMQ context is down and the poller has
-- returned, and main, with the workers that it has yet to join.
pub record Threads : Type 0 where
  pub process : Process
  pub watcher : Watcher
  pub zmq_down : Bool
  pub polled : Bool
  pub to_join : List ℕ
  pub joining : Joining

pub data Move (t : Threads) : Threads → Type 0 where
  -- a step of a worker, which is no step of initiate_shutdown
  work :
      {q : Process} → Step t.process q → q.call ≡ t.process.call → Move t (record t { process = q })
  -- SIGUSR1
  reload : t.watcher ≡ reading → Move t t
  -- `n != 1`: the pipe is closed, or a signal interrupts `read`, which SA_RESTART would start again
  read_fails : t.watcher ≡ reading → Move t (record t { watcher = gave_up })
  -- SIGTERM or SIGINT: initiate_shutdown copies the registry
  terminate :
      t.watcher ≡ reading
      → t.process.call ≡ none
      → Move t (record t {
        watcher = halting;
        process = record t.process { call = some t.process.servers.active };
      })
  -- `s->Shutdown()` for the next of the snapshot
  halts :
      {q : Process}
      → Step t.process q
      → (i : ℕ) (rest : List ℕ) → t.watcher ≡ halting
      → t.process.call ≡ some (i ∷ rest)
      → q.call ≡ some rest
      → Move t (record t { process = q })
  -- `zmq_poller.get_zmq_ctx().shutdown()`, and the watcher's return
  down :
      t.watcher ≡ halting
      → t.process.call ≡ some []
      → Move t (record t { watcher = returned; zmq_down = true })
  -- ETERM ends the poller
  poll_end : t.zmq_down ≡ true → t.polled ≡ false → Move t (record t { polled = true })
  -- `w.join()`
  join :
      (i : ℕ) (rest : List ℕ)
      → t.joining ≡ of_workers
      → t.to_join ≡ i ∷ rest
      → get_elem? t.process.places i ≡ some gone
      → Move t (record t { to_join = rest })
  join_poller :
      t.joining ≡ of_workers
      → t.to_join ≡ []
      → t.polled ≡ true
      → Move t (record t { joining = of_watcher })
  join_watcher :
      t.joining ≡ of_watcher → has_ended t.watcher ≡ true → Move t (record t { joining = success })

-- Some number of moves.
pub data Moves : ℕ → Threads → Threads → Type 0 where
  stay : {t : Threads} → Moves 0 t t
  then_moves : {n : ℕ} {t u v : Threads} → Move t u → Moves n u v → Moves (suc n) t v

abbrev pub numbers_from : ℕ → ℕ → List ℕ
numbers_from i zero = []
numbers_from i (suc n) = i ∷ numbers_from (i + 1) n

-- main behind LoadThreads and the start of the watcher, with this many workers.
abbrev pub started_threads : ℕ → Threads
started_threads n = record {
  process = started_workers n;
  watcher = reading;
  zmq_down = false;
  polled = false;
  to_join = numbers_from 0 n;
  joining = of_workers;
}
