-- ===== src/Server/Workers/Progress.antt =====
-- The shutdown comes to its end, whatever the order of the threads.
use mdt_dialout_collector.Common.{
  ℕ, zero, suc, ◌+◌, true, false, Option, none, some, List, [], ◌∷◌, length, get_elem?, set, ◌≡◌,
  refl, arith, Bool-cases, Option-cases, ◌⊎◌, inl, inr,
}
use mdt_dialout_collector.Server.Registry.{Srv, cisco}
use mdt_dialout_collector.Server.Workers.{
  Place, starting, built, serving, leaving, ending, gone, Process, Step, build, enter, leave, exit,
  destroy, snapshot, halt, Run, here, next,
}
use mdt_dialout_collector.Server.Workers.Shut.{shutdown_twice, shutdown_once}
use mdt_dialout_collector.Server.Workers.Invariant.{FitsAt, IsSound, FitsWith, server_of}
use mdt_dialout_collector.Server.Workers.Kept.{pending_serving}

-- How many steps a worker has before it.
abbrev pub ahead : Place → ℕ
ahead starting = 5
ahead built = 4
ahead serving = 3
ahead leaving = 2
ahead ending = 1
ahead gone = 0

abbrev pub all_ahead : List Place → ℕ
all_ahead [] = 0
all_ahead (place ∷ places) = ahead place + all_ahead places

abbrev pub left : Option (List ℕ) → ℕ
left none = 0
left (some rest) = length rest

-- The steps of the workers and those of the call.
abbrev pub to_go : Process → ℕ
to_go p = all_ahead p.places + left p.call

all_ahead-set :
    (places : List Place) (i : ℕ) (place : Place) {old : Place}
    → get_elem? places i ≡ some old
    → all_ahead (set places i place) + ahead old ≡ all_ahead places + ahead place
all_ahead-set [] i place h = absurd (cc)
all_ahead-set (x ∷ places) zero place h = ground arith
all_ahead-set (x ∷ places) (suc i) place h = omega (arith, all_ahead-set places i place h)

moves_on :
    (p : Process) (i : ℕ) (place old : Place)
    → get_elem? p.places i ≡ some old
    → ahead old ≡ suc (ahead place)
    → suc (all_ahead (set p.places i place) + left p.call) ≡ to_go p
moves_on p i place old at one = omega (arith, all_ahead-set p.places i place at)

-- Once the call has begun, each step is one of those to go.
pub Step-to_go :
    (p q : Process) (rest : List ℕ)
    → p.call ≡ some rest
    → Step p q
    → (suc (to_go q) ≡ to_go p) × (rest' : List ℕ) × (q.call ≡ some rest')
Step-to_go p _ rest begun (build i vendor started at) =
    (moves_on p i built starting at refl, rest, begun)
Step-to_go p _ rest begun (enter i at) = (moves_on p i serving built at refl, rest, begun)
Step-to_go p _ rest begun (leave i at found down) =
    (moves_on p i leaving serving at refl, rest, begun)
Step-to_go p _ rest begun (exit i at) = (moves_on p i ending leaving at refl, rest, begun)
Step-to_go p _ rest begun (destroy i at h) = (moves_on p i gone ending at refl, rest, begun)
Step-to_go p _ rest begun (snapshot idle) = absurd (cc)
Step-to_go p _ rest begun (halt i rest' running h) = (rw running (omega arith), rest', refl)

pub Run-to_go :
    (n : ℕ) (p q : Process) (rest : List ℕ)
    → p.call ≡ some rest
    → Run n p q
    → (n + to_go q ≡ to_go p) × (rest' : List ℕ) × (q.call ≡ some rest')
Run-to_go n p q rest begun here = (omega arith, rest, begun)
Run-to_go n p q rest begun (next {q = p1} step run) =
    let (one, rest1, begun1) = Step-to_go p p1 rest begun step in
    let (more, rest', begun') = Run-to_go _ p1 q rest1 begun1 run in (omega arith, rest', begun')

-- A worker that has no step of its own: it is gone, or serves with its queue up.
abbrev pub Rests : Process → ℕ → Type 0
Rests p i =
    (get_elem? p.places i ≡ none)
    ⊎ ((get_elem? p.places i ≡ some gone)
        ⊎ ((get_elem? p.places i ≡ some serving)
            × (srv : Srv) × (get_elem? p.servers.heap i ≡ some srv)
            × (srv.shutdown_done ≡ false)))

abbrev pub CanStep : Process → Type 0
CanStep p = (q : Process) × Step p q

place-Rests : (p : Process) (i : ℕ) → FitsAt p i → CanStep p ⊎ Rests p i
place-Rests p i fits = elim (Option-cases (get_elem? p.places i)) [
  | inl missing ↦ inr (inl missing)
  | inr (place, at) ↦
      let (srv, found, fits') = server_of p i place at fits in of_place place srv at found fits'
]
  where
    of_place :
        (place : Place) (srv : Srv)
        → get_elem? p.places i ≡ some place
        → get_elem? p.servers.heap i ≡ some srv
        → FitsWith place srv p i
        → CanStep p ⊎ Rests p i
    of_place starting srv at found fits' = inl (_, build i cisco true at)
    of_place built srv at found fits' = inl (_, enter i at)
    of_place serving srv at found fits' = elim (Bool-cases srv.shutdown_done) [
      | inl down ↦ inl (_, leave i at found down)
      | inr up ↦ inr (inr (inr (at, srv, found, up)))
    ]
    of_place leaving srv at found fits' = inl (_, exit i at)
    of_place ending srv at found (_, _, down, _) =
        inl (_, destroy i at (shutdown_twice i p.servers srv found down))
    of_place gone srv at found fits' = inr (inr (inl at))

-- Once the call has begun, a step is possible as long as there is anything left to do for the call
-- or for a worker whose queue is down or that has not come to serve.
pub step_or_Rests :
    (p : Process) (rest : List ℕ) (i : ℕ)
    → IsSound p
    → p.call ≡ some rest
    → CanStep p ⊎ ((rest ≡ []) × Rests p i)
step_or_Rests p [] i sound begun = elim (place-Rests p i (sound i)) [
  | inl can ↦ inl can
  | inr rests ↦ inr (refl, rests)
]
step_or_Rests p (j ∷ rest) i sound begun =
    let (srv, at, found, up, _, _) = pending_serving p j rest begun (sound j) in
    inl (_, halt j rest begun (shutdown_once j p.servers srv found up))
