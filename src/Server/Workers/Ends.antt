-- ===== src/Server/Workers/Ends.antt =====
-- From the start of the workers to their end.
use mdt_dialout_collector.Common.{
  ℕ, zero, suc, ◌≤◌, Bool, true, false, none, some, List, [], ◌∷◌, get_elem?, get_elem?-set_self,
  get_elem?-set_ne, get_elem?-lt, replicate, ◌≡◌, refl, ◌∙◌, subst, arith, Bool-cases, Option-cases,
  ◌⊎◌, inl, inr, ◌==◌,
}
use mdt_dialout_collector.Server.Registry.{
  unset, Vendor, Srv, Servers, register_server, unregister_server,
}
use mdt_dialout_collector.Server.Bind.{build_server}
use mdt_dialout_collector.Server.Workers.{
  starting, serving, gone, Process, Step, build, enter, leave, exit, destroy, snapshot, halt, Run,
  here, next,
}
use mdt_dialout_collector.Server.Workers.Shut.{Shut, shutdown-Shut}
use mdt_dialout_collector.Server.Workers.Invariant.{times, pending, FitsAt, IsSound}
use mdt_dialout_collector.Server.Workers.Kept.{pending_serving, Step-IsSound, built_server}
use mdt_dialout_collector.Server.Workers.Progress.{
  to_go, Step-to_go, Run-to_go, CanStep, Rests, step_or_Rests,
}

-- A `Srv` as its constructor leaves it.
abbrev pub fresh_srv : Srv
fresh_srv = record {
  shutdown_done = false;
  active_vendor = unset;
  has_server = false;
  has_cq = false;
}

-- The process as LoadThreads leaves it, with this many workers.
abbrev pub started_workers : ℕ → Process
started_workers n = record {
  places = replicate n starting;
  servers = record { heap = replicate n fresh_srv; active = []; halted = [] };
  call = none;
}

pub started_workers-IsSound : (n : ℕ) → IsSound (started_workers n)
started_workers-IsSound zero i = (refl, refl)
started_workers-IsSound (suc n) zero = (refl, omega arith, refl, refl)
started_workers-IsSound (suc n) (suc i) = ground (arith, started_workers-IsSound n i)

pub Run-IsSound : (n : ℕ) (p q : Process) → Run n p q → IsSound p → IsSound q
Run-IsSound n p q here sound = sound
Run-IsSound n p q (next {q = p1} step run) sound =
    Run-IsSound _ p1 q run (Step-IsSound p p1 step sound)

-- However the threads are interleaved with one call of initiate_shutdown: the server that it is about
-- to shut down has not been destroyed. Its worker is in RunFsm, and nobody has shut it down before.
pub halted_lives :
    (workers n : ℕ) (p : Process) (i : ℕ) (rest : List ℕ)
    → Run n (started_workers workers) p
    → p.call ≡ some (i ∷ rest)
    → (get_elem? p.places i ≡ some serving)
      × (srv : Srv) × (get_elem? p.servers.heap i ≡ some srv)
      × (srv.shutdown_done ≡ false)
halted_lives workers n p i rest run begun =
    let sound = Run-IsSound n (started_workers workers) p run (started_workers-IsSound workers) in
    let (srv, at, found, up, _, _) = pending_serving p i rest begun (sound i) in
    (at, srv, found, up)

-- The server at an address has been shut down.
abbrev Down : ℕ → Servers → Type 0
Down i s = (srv : Srv) × (get_elem? s.heap i ≡ some srv) × (srv.shutdown_done ≡ true)

-- The call shuts the server down, or has done so.
abbrev Covered : ℕ → Process → Type 0
Covered i p = (1 ≤ pending i p.call) ⊎ Down i p.servers

pub built_nowhere :
    (vendor : Vendor) (started : Bool) (i : ℕ) (s : Servers)
    → get_elem? s.heap i ≡ none
    → build_server vendor started i s ≡ s
unfolding build_server
built_nowhere vendor started i s missing = ground arith

build_server-Down :
    (vendor : Vendor) (started : Bool) (i j : ℕ) (s : Servers)
    → Down j s
    → Down j (build_server vendor started i s)
build_server-Down vendor started i j s (srv, found, down) =
    elim (Option-cases (get_elem? s.heap i)) [
      | inl missing ↦ rw (built_nowhere vendor started i s missing) (srv, found, down)
      | inr (old, there) ↦
          let new = record old { active_vendor = vendor; has_server = started; has_cq = true } in
          rw (built_server vendor started i s old there) (elim (Bool-cases (i == j)) [
            | inl e ↦ (
              new,
              ground (arith, get_elem?-set_self s.heap i new (get_elem?-lt s.heap i there)),
              ground arith,
            )
            | inr e ↦ (srv, get_elem?-set_ne s.heap i j new (ground arith) ∙ found, down)
          ])
    ]

Shut-Down : (i j : ℕ) (s s' : Servers) → Shut i s s' → Down j s → Down j s'
Shut-Down i j s s' (active, heap, srv', found', down') (srv, found, down) =
    elim (Bool-cases (i == j)) [
      | inl e ↦ subst (λ k. Down k s') (ground arith) (srv', found', down')
      | inr e ↦ (srv, heap j e ∙ found, down)
    ]

Step-Down : (p q : Process) (i : ℕ) → Step p q → Down i p.servers → Down i q.servers
unfolding register_server unregister_server
Step-Down p _ i (build j vendor started at) down =
    build_server-Down vendor started j i p.servers down
Step-Down p _ i (enter j at) down = down
Step-Down p _ i (leave j at found is_down) down = down
Step-Down p _ i (exit j at) down = down
Step-Down p _ i (destroy j {s = s} at h) down =
    Shut-Down j i p.servers s (shutdown-Shut j p.servers s h) down
Step-Down p _ i (snapshot idle) down = down
Step-Down p _ i (halt j rest {s = s} running h) down =
    Shut-Down j i p.servers s (shutdown-Shut j p.servers s h) down

Step-waiting :
    (p q : Process) (i : ℕ) (rest : List ℕ)
    → p.call ≡ some rest
    → Step p q
    → 1 ≤ pending i p.call
    → Covered i q
Step-waiting p _ i rest begun (build j vendor started at) waits = inl waits
Step-waiting p _ i rest begun (enter j at) waits = inl waits
Step-waiting p _ i rest begun (leave j at found down) waits = inl waits
Step-waiting p _ i rest begun (exit j at) waits = inl waits
Step-waiting p _ i rest begun (destroy j at h) waits = inl waits
Step-waiting p _ i rest begun (snapshot idle) waits = absurd (cc)
Step-waiting p _ i rest begun (halt j rest' {s = s} running h) waits = elim (Bool-cases (j == i)) [
  | inl e ↦
      let (_, _, srv, found, down) = shutdown-Shut j p.servers s h in
      let same : j ≡ i = ground arith in inr (subst (λ k. Down k s) same (srv, found, down))
  | inr e ↦ let still : 1 ≤ times i (j ∷ rest') = rw running at waits in inl (ground arith)
]

Run-Covered :
    (n : ℕ) (p q : Process) (i : ℕ) (rest : List ℕ)
    → p.call ≡ some rest
    → Run n p q
    → Covered i p
    → Covered i q
Run-Covered n p q i rest begun here covered = covered
Run-Covered n p q i rest begun (next {q = p1} step run) covered =
    let (_, rest1, begun1) = Step-to_go p p1 rest begun step in
    Run-Covered _ p1 q i rest1 begun1 run (elim covered [
      | inl waits ↦ Step-waiting p p1 i rest begun step waits
      | inr down ↦ inr (Step-Down p p1 i step down)
    ])

Rests-gone :
    (q : Process) (i : ℕ)
    → FitsAt q i
    → Down i q.servers
    → Rests q i
    → get_elem? q.places i ≡ some gone
Rests-gone q i fits (srv, found, down) (inl missing) = absurd (rw (missing, found) at fits)
Rests-gone q i fits (srv, found, down) (inr (inl at)) = at
Rests-gone q i fits (srv, found, down) (inr (inr (at, srv', found', up))) = absurd (ground arith)

no_more_pending :
    (q : Process) (i : ℕ) (rest : List ℕ)
    → q.call ≡ some rest
    → rest ≡ []
    → Covered i q
    → Down i q.servers
no_more_pending q i rest begun finished (inl waits) =
    let still : 1 ≤ times i [] = rw (begun, finished) at waits in absurd (omega (arith, still))
no_more_pending q i rest begun finished (inr down) = down

-- Whatever the order of the threads, with one call of initiate_shutdown, and from its copy of the
-- registry on: a run of the workers and of the call has no more steps than the workers and the call have before them;
-- and where it has come so far that no step is possible, every worker that was still to be shut down
-- is gone.
pub shutdown_completes :
    (workers m n : ℕ) (p q : Process) (i : ℕ) (rest : List ℕ)
    → Run m (started_workers workers) p
    → p.call ≡ some rest
    → 1 ≤ times i rest
    → Run n p q
    → ¬ CanStep q
    → (get_elem? q.places i ≡ some gone) × (n ≤ to_go p)
shutdown_completes workers m n p q i rest before begun waits run stuck =
    let start =
      Run-IsSound m (started_workers workers) p before (started_workers-IsSound workers) in
    let (counted, rest', begun') = Run-to_go n p q rest begun run in
    let covered = Run-Covered n p q i rest begun run (inl (rw begun waits)) in
    elim (step_or_Rests q rest' i (Run-IsSound n p q run start) begun') [
      | inl can ↦ absurd (stuck can)
      | inr (finished, rests) ↦ (
        Rests-gone q i (Run-IsSound n p q run start i)
            (no_more_pending q i rest' begun' finished covered) rests,
        omega (arith, counted),
      )
    ]
