-- ===== src/Server/Workers/Late.antt =====
-- A worker that registers behind the copy of the registry.
use mdt_dialout_collector.Common.{
  ℕ, Bool, true, false, some, List, ◌∷◌, get_elem?, get_elem?-set_self, get_elem?-set_ne,
  get_elem?-lt, set, ◌≡◌, refl, ◌∙◌, subst, arith, Bool-cases, Option-cases, inl, inr, ◌==◌,
}
use mdt_dialout_collector.Server.Registry.{Vendor, Srv, Servers, register_server, unregister_server}
use mdt_dialout_collector.Server.Bind.{build_server}
use mdt_dialout_collector.Server.Workers.{
  Place, starting, built, serving, leaving, ending, gone, Process, move, Step, build, enter, leave,
  exit, destroy, snapshot, halt, Run, here, next,
}
use mdt_dialout_collector.Server.Workers.Shut.{shutdown-Shut}
use mdt_dialout_collector.Server.Workers.Invariant.{times, pending}
use mdt_dialout_collector.Server.Workers.Kept.{built_server}
use mdt_dialout_collector.Server.Workers.Progress.{Step-to_go}
use mdt_dialout_collector.Server.Workers.Ends.{built_nowhere}

-- A worker that has not left RunFsm.
abbrev pub early : Place → Bool
early starting = true
early built = true
early serving = true
early _ = false

-- A worker that has not left RunFsm, with its queue up, and that the call passes over.
abbrev pub IsLate : ℕ → Process → Type 0
IsLate i p =
    (place : Place) × (srv : Srv) × (get_elem? p.places i ≡ some place)
    × (early place ≡ true)
    × (get_elem? p.servers.heap i ≡ some srv)
    × (srv.shutdown_done ≡ false)
    × (pending i p.call ≡ 0)

-- A step of a worker that is this one, or another, where its server stays up.
moved-IsLate :
    (p : Process) (i j : ℕ) (place : Place) (s : Servers) {old : Place} {srv : Srv}
    → get_elem? p.places j ≡ some old
    → ((j == i) ≡ true → early place ≡ true)
    → get_elem? s.heap i ≡ some srv
    → srv.shutdown_done ≡ false
    → IsLate i p
    → IsLate i (move p j place s)
moved-IsLate p i j place s {srv = srv} was on found up (place', _, at, early', _, _, passed) =
    elim (Bool-cases (j == i)) [
      | inl e ↦
          let same : j ≡ i = ground arith in
          (
            place,
            srv,
            subst (λ k. get_elem? (set p.places j place) k ≡ some place) same
                (get_elem?-set_self p.places j place (get_elem?-lt p.places j was)),
            on e,
            found,
            up,
            passed,
          )
      | inr e ↦ (
        place',
        srv,
        get_elem?-set_ne p.places j i place (ground arith) ∙ at,
        early',
        found,
        up,
        passed,
      )
    ]

-- The place of a late worker is an early one.
not_late :
    (p : Process) (i j : ℕ) (old place : Place)
    → get_elem? p.places j ≡ some old
    → early old ≡ false
    → IsLate i p
    → (j == i) ≡ true
    → early place ≡ true
not_late p i j old place was off (place', _, at, on, _, _, _) e =
    let same : j ≡ i = ground arith in
    let at_j : get_elem? p.places j ≡ some place' = rw same at in absurd (ground arith)

build-up :
    (vendor : Vendor) (started : Bool) (i j : ℕ) (s : Servers) (srv : Srv)
    → get_elem? s.heap i ≡ some srv
    → srv.shutdown_done ≡ false
    → (srv' : Srv) × (get_elem? (build_server vendor started j s).heap i ≡ some srv')
      × (srv'.shutdown_done ≡ false)
build-up vendor started i j s srv found up = elim (Option-cases (get_elem? s.heap j)) [
  | inl missing ↦ rw (built_nowhere vendor started j s missing) (srv, found, up)
  | inr (old, there) ↦
      let new = record old { active_vendor = vendor; has_server = started; has_cq = true } in
      rw (built_server vendor started j s old there) (elim (Bool-cases (j == i)) [
        | inl e ↦ (
          new,
          ground (arith, get_elem?-set_self s.heap j new (get_elem?-lt s.heap j there)),
          ground arith,
        )
        | inr e ↦ (srv, get_elem?-set_ne s.heap j i new (ground arith) ∙ found, up)
      ])
]

other_worker :
    (p : Process) (i j : ℕ) (old : Place)
    → get_elem? p.places j ≡ some old
    → early old ≡ false
    → IsLate i p
    → (j == i) ≡ false
other_worker p i j old was off late = elim (Bool-cases (j == i)) [
  | inl e ↦ absurd (ground (arith, not_late p i j old gone was off late e))
  | inr e ↦ e
]

Step-IsLate :
    (p q : Process) (i : ℕ) (rest : List ℕ)
    → p.call ≡ some rest
    → Step p q
    → IsLate i p
    → IsLate i q
unfolding register_server unregister_server
Step-IsLate p _ i rest begun (build j vendor started at) late =
    let (_, srv, _, _, found, up, _) = late in
    let (srv', found', up') = build-up vendor started i j p.servers srv found up in
    moved-IsLate p i j built (build_server vendor started j p.servers) at (λ e. refl) found' up'
      late
Step-IsLate p _ i rest begun (enter j at) late =
    let (_, srv, _, _, found, up, _) = late in
    moved-IsLate p i j serving (register_server j p.servers) at (λ e. refl) found up late
Step-IsLate p _ i rest begun (leave j {srv = srv'} at there down) late =
    let (_, srv, _, _, found, up, _) = late in
    moved-IsLate p i j leaving p.servers at
      (λ e. let same : j ≡ i = ground arith in absurd (ground arith)) found up late
Step-IsLate p _ i rest begun (exit j at) late =
    let (_, srv, _, _, found, up, _) = late in
    moved-IsLate p i j ending (unregister_server j p.servers) at
      (not_late p i j leaving ending at refl late) found up late
Step-IsLate p _ i rest begun (destroy j {s = s} at h) late =
    let (_, srv, _, _, found, up, _) = late in
    let (_, others, _, _, _) = shutdown-Shut j p.servers s h in
    moved-IsLate p i j gone s at (not_late p i j ending gone at refl late)
      (others i (other_worker p i j ending at refl late) ∙ found) up late
Step-IsLate p _ i rest begun (snapshot idle) late = absurd (cc)
Step-IsLate p _ i rest begun (halt j rest' {s = s} running h)
      (place, srv, at, on, found, up, passed) =
    let (_, others, _, _, _) = shutdown-Shut j p.servers s h in
    let none_left : times i (j ∷ rest') ≡ 0 = rw running at passed in
    let other : (j == i) ≡ false = ground arith in
    (place, srv, at, on, others i other ∙ found, up, ground arith)

-- Once initiate_shutdown has copied the registry: let a worker not have left RunFsm, with its queue
-- up, and let its server not be among those that the call still has to shut down, as when it was not
-- registered yet when the copy was made. Then this is so for ever, whatever the order of the threads
-- and however long they run: the worker never leaves RunFsm, and nobody shuts its queue down.
pub Run-IsLate :
    (n : ℕ) (p q : Process) (i : ℕ) (rest : List ℕ)
    → p.call ≡ some rest
    → IsLate i p
    → Run n p q
    → IsLate i q
Run-IsLate n p q i rest begun late here = late
Run-IsLate n p q i rest begun late (next {q = p1} step run) =
    let (_, rest1, begun1) = Step-to_go p p1 rest begun step in
    Run-IsLate _ p1 q i rest1 begun1 (Step-IsLate p p1 i rest begun step late) run
