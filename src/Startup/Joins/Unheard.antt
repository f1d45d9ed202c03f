-- ===== src/Startup/Joins/Unheard.antt =====
-- A watcher that has returned without a signal: nothing shuts the daemon down any more.
use mdt_dialout_collector.Common.{
  ℕ, zero, suc, Bool, true, false, none, List, ◌∷◌, get_elem?, ◌≡◌, refl, ◌∙◌, arith, All,
  All-get_elem?, All-set, Option-cases, ◌⊎◌, inl, inr,
}
use mdt_dialout_collector.Server.Registry.{Vendor, Srv, Servers, register_server}
use mdt_dialout_collector.Server.Bind.{build_server}
use mdt_dialout_collector.Server.Workers.{
  Place, starting, built, serving, leaving, ending, gone, Process, Step, build, enter, leave, exit,
  destroy, snapshot, halt,
}
use mdt_dialout_collector.Server.Workers.Kept.{built_server}
use mdt_dialout_collector.Server.Workers.Ends.{started_workers, built_nowhere}
use mdt_dialout_collector.Startup.Joins.{
  gave_up, of_workers, Threads, Move, work, reload, read_fails, terminate, halts, down, poll_end,
  join, join_poller, join_watcher, Moves, stay, then_moves, numbers_from, started_threads,
}
use mdt_dialout_collector.Startup.Joins.Keeps.{begun}

-- A worker that is on its way into RunFsm or in it, and a server that has not been shut down.
abbrev is_up : Place → Bool
is_up starting = true
is_up built = true
is_up serving = true
is_up leaving = false
is_up ending = false
is_up gone = false

abbrev pub IsUp : Place → Type 0
IsUp place = is_up place ≡ true

abbrev pub IsOpen : Srv → Type 0
IsOpen srv = srv.shutdown_done ≡ false

abbrev pub AllUp : Process → Type 0
AllUp p = All IsUp p.places × All IsOpen p.servers.heap

build_server-IsOpen :
    (vendor : Vendor) (started : Bool) (i : ℕ) (s : Servers)
    → All IsOpen s.heap
    → All IsOpen (build_server vendor started i s).heap
build_server-IsOpen vendor started i s all = elim (Option-cases (get_elem? s.heap i)) [
  | inl missing ↦ rw (built_nowhere vendor started i s missing) all
  | inr (old, there) ↦
      rw (built_server vendor started i s old there)
        (All-set IsOpen s.heap i _ all (All-get_elem? IsOpen s.heap i all there))
]

-- Without a call of initiate_shutdown no step takes a worker out of RunFsm.
Step-AllUp : (p q : Process) → Step p q → q.call ≡ none → AllUp p → AllUp q
unfolding register_server
Step-AllUp p _ (build i vendor started at) idle (places, heap) =
    (All-set IsUp p.places i built places refl, build_server-IsOpen vendor started i p.servers heap)
Step-AllUp p _ (enter i at) idle (places, heap) =
    (All-set IsUp p.places i serving places refl, heap)
Step-AllUp p _ (leave i at found is_down) idle (places, heap) =
    absurd (let still = All-get_elem? IsOpen p.servers.heap i heap found in cc)
Step-AllUp p _ (exit i at) idle (places, heap) =
    absurd (let up = All-get_elem? IsUp p.places i places at in cc)
Step-AllUp p _ (destroy i at h) idle (places, heap) =
    absurd (let up = All-get_elem? IsUp p.places i places at in cc)
Step-AllUp p _ (snapshot _) idle up = absurd (cc)
Step-AllUp p _ (halt i rest running h) idle up = absurd (cc)

-- No signal has been heard: main is at its first join.
record Unheard (t : Threads) : Type 0 where
  idle : t.process.call ≡ none
  up : AllUp t.process
  zmq_up : t.zmq_down ≡ false
  joining : t.joining ≡ of_workers
  first : ℕ
  others : List ℕ
  to_join : t.to_join ≡ first ∷ others

EitherWay : Threads → Type 0
EitherWay t = Unheard t ⊎ (begun t.watcher ≡ true)

Move-Unheard : (t u : Threads) → Move t u → Unheard t → EitherWay u
unfolding EitherWay
Move-Unheard t _ (work {q = q} step same) h =
    let idle = same ∙ h.idle in
    inl (record {
      idle = idle;
      up = Step-AllUp t.process q step idle h.up;
      zmq_up = h.zmq_up;
      joining = h.joining;
      first = h.first;
      others = h.others;
      to_join = h.to_join;
    })
Move-Unheard t _ (reload at) h = inl h
Move-Unheard t _ (read_fails at) h = inl (record {
  idle = h.idle;
  up = h.up;
  zmq_up = h.zmq_up;
  joining = h.joining;
  first = h.first;
  others = h.others;
  to_join = h.to_join;
})
Move-Unheard t _ (terminate at idle) h = inr refl
Move-Unheard t _ (halts step i rest at running q_rest) h = absurd (let idle = h.idle in cc)
Move-Unheard t _ (down at finished) h = absurd (let idle = h.idle in cc)
Move-Unheard t _ (poll_end z p) h = absurd (let up = h.zmq_up in cc)
Move-Unheard t _ (join i rest j l is_gone) h =
    absurd (let up = All-get_elem? IsUp t.process.places i h.up.0 is_gone in cc)
Move-Unheard t _ (join_poller j l p) h = absurd (let waits = h.to_join in cc)
Move-Unheard t _ (join_watcher j w) h = absurd (let waits = h.joining in cc)

-- A watcher that has read SIGTERM, or that has returned without it, stays so.
Move-begun : (t u : Threads) → Move t u → begun t.watcher ≡ true → begun u.watcher ≡ true
Move-begun t _ (work step same) on = on
Move-begun t _ (reload at) on = on
Move-begun t _ (read_fails at) on = absurd (ground arith)
Move-begun t _ (terminate at idle) on = refl
Move-begun t _ (halts step i rest at running q_rest) on = on
Move-begun t _ (down at finished) on = refl
Move-begun t _ (poll_end z p) on = on
Move-begun t _ (join i rest j l g) on = on
Move-begun t _ (join_poller j l p) on = on
Move-begun t _ (join_watcher j w) on = on

Move-gave_up : (t u : Threads) → Move t u → t.watcher ≡ gave_up → u.watcher ≡ gave_up
Move-gave_up t _ (work step same) off = off
Move-gave_up t _ (reload at) off = off
Move-gave_up t _ (read_fails at) off = refl
Move-gave_up t _ (terminate at idle) off = absurd (cc)
Move-gave_up t _ (halts step i rest at running q_rest) off = off
Move-gave_up t _ (down at finished) off = absurd (cc)
Move-gave_up t _ (poll_end z p) off = off
Move-gave_up t _ (join i rest j l g) off = off
Move-gave_up t _ (join_poller j l p) off = off
Move-gave_up t _ (join_watcher j w) off = off

Moves-EitherWay : (n : ℕ) (t u : Threads) → Moves n t u → EitherWay t → EitherWay u
unfolding EitherWay
Moves-EitherWay n t u stay h = h
Moves-EitherWay n t u (then_moves {u = v} move rest) (inl h) =
    Moves-EitherWay _ v u rest (Move-Unheard t v move h)
Moves-EitherWay n t u (then_moves {u = v} move rest) (inr on) =
    Moves-EitherWay _ v u rest (inr (Move-begun t v move on))

Moves-gave_up : (n : ℕ) (t u : Threads) → Moves n t u → t.watcher ≡ gave_up → u.watcher ≡ gave_up
Moves-gave_up n t u stay off = off
Moves-gave_up n t u (then_moves {u = v} move rest) off =
    Moves-gave_up _ v u rest (Move-gave_up t v move off)

started_workers-AllUp : (n : ℕ) → AllUp (started_workers n)
started_workers-AllUp zero = (tt, tt)
started_workers-AllUp (suc n) =
    let (places, heap) = started_workers-AllUp n in ((refl, places), (refl, heap))

started_threads-Unheard : (n : ℕ) → Unheard (started_threads (suc n))
started_threads-Unheard n = record {
  idle = refl;
  up = started_workers-AllUp (suc n);
  zmq_up = refl;
  joining = refl;
  first = 0;
  others = numbers_from 1 n;
  to_join = refl;
}

-- From the start of the daemon's threads, with one worker at least, and whatever their order: let the
-- watcher have returned because its read gave no byte. Then, whatever the threads do behind it, no
-- worker ever leaves RunFsm, no server is shut down, nor is the ZMQ context, and main never comes
-- past the join of the workers.
pub gave_up-AllUp :
    (workers m n : ℕ) (t u : Threads)
    → Moves m (started_threads (suc workers)) t
    → t.watcher ≡ gave_up
    → Moves n t u
    → AllUp u.process × (u.zmq_down ≡ false) × (u.joining ≡ of_workers)
unfolding EitherWay
gave_up-AllUp workers m n t u before off after =
    let start = started_threads (suc workers) in
    let off' = Moves-gave_up n t u after off in
    elim (Moves-EitherWay n t u after
      (Moves-EitherWay m start t before (inl (started_threads-Unheard workers)))) [
        | inl h ↦ (h.up, h.zmq_up, h.joining)
        | inr on ↦ absurd (ground arith)
      ]
