-- ===== src/Server/Workers/Invariant.antt =====
-- The invariant of the workers, and when a step of one of them keeps it.
use mdt_dialout_collector.Common.{
  ℕ, ◌≤◌, Bool, true, false, not, ◌||◌, ◌==◌, Option, none, some, List, get_elem?,
  get_elem?-set_self, get_elem?-set_ne, get_elem?-lt, count, ◌≡◌, refl, subst, arith, Bool-cases,
  Option-cases, inl, inr,
}
use mdt_dialout_collector.Server.Registry.{Srv, Servers}
use mdt_dialout_collector.Server.Workers.{Place, serving, leaving, ending, gone, Process, move}

-- How often an address stands in a list.
abbrev pub times : ℕ → List ℕ → ℕ
times i xs = count (λ x. x == i) xs

abbrev pub pending : ℕ → Option (List ℕ) → ℕ
pending i none = 0
pending i (some rest) = times i rest

abbrev pub called : Option (List ℕ) → Bool
called none = false
called (some _) = true

-- How often a worker is registered, whether its queue has been shut down, and how often at most the
-- call still has to shut it down.
abbrev pub registered : Place → ℕ
registered serving = 1
registered leaving = 1
registered _ = 0

abbrev pub past : Place → Bool
past leaving = true
past ending = true
past gone = true
past _ = false

abbrev pub waits : Place → Bool → Bool → ℕ
waits serving false true = 1
waits _ _ _ = 0

-- The place of a worker, its server, its times in the registry and in the rest of the snapshot, and
-- whether the call has begun.
abbrev pub Fits : Option Place → Option Srv → ℕ → ℕ → Bool → Type 0
Fits none none reg rest begun = (reg ≡ 0) × (rest ≡ 0)
Fits (some place) (some srv) reg rest begun =
    (reg ≡ registered place)
    × (rest ≤ waits place srv.shutdown_done begun)
    × ((not (past place) || srv.shutdown_done) ≡ true)
    × ((begun || not srv.shutdown_done) ≡ true)
Fits _ _ reg rest begun = ⊥

abbrev pub FitsAt : Process → ℕ → Type 0
FitsAt p i =
    Fits (get_elem? p.places i) (get_elem? p.servers.heap i) (times i p.servers.active)
      (pending i p.call) (called p.call)

abbrev pub IsSound : Process → Type 0
IsSound p = (i : ℕ) → FitsAt p i

-- A worker that fits has a server.
abbrev pub FitsWith : Place → Srv → Process → ℕ → Type 0
FitsWith place srv p i =
    Fits (some place) (some srv) (times i p.servers.active) (pending i p.call) (called p.call)

pub server_of :
    (p : Process) (i : ℕ) (place : Place)
    → get_elem? p.places i ≡ some place
    → FitsAt p i
    → (srv : Srv) × (get_elem? p.servers.heap i ≡ some srv) × FitsWith place srv p i
server_of p i place at fits = elim (Option-cases (get_elem? p.servers.heap i)) [
  | inl missing ↦ absurd (rw (at, missing) at fits)
  | inr (srv, found) ↦ (srv, found, rw (at, found) at fits)
]

-- At another address nothing has changed.
abbrev pub SameAt : Process → Process → ℕ → Type 0
SameAt p q j =
    (get_elem? q.places j ≡ get_elem? p.places j)
    × (get_elem? q.servers.heap j ≡ get_elem? p.servers.heap j)
    × (times j q.servers.active ≡ times j p.servers.active)
    × (pending j q.call ≡ pending j p.call)

pub others-IsSound :
    (p q : Process) (i : ℕ)
    → ((j : ℕ) → (i == j) ≡ false → SameAt p q j)
    → called q.call ≡ called p.call
    → FitsAt q i
    → IsSound p
    → IsSound q
others-IsSound p q i same begun fits sound j = elim (Bool-cases (i == j)) [
  | inl e ↦ subst (FitsAt q) (ground arith) fits
  | inr e ↦ let (a, b, c, d) = same j e in rw (a, b, c, d, begun) (sound j)
]

move_fits :
    (p : Process) (i : ℕ) (place : Place) (s : Servers) {old : Place} {srv : Srv}
    → get_elem? p.places i ≡ some old
    → get_elem? s.heap i ≡ some srv
    → FitsWith place srv (move p i place s) i
    → FitsAt (move p i place s) i
move_fits p i place s was found fits =
    rw (get_elem?-set_self p.places i place (get_elem?-lt p.places i was), found) fits

-- A worker moves, and at most its server changes, and its entries in the registry.
pub moved-IsSound :
    (p : Process) (i : ℕ) (place : Place) (s : Servers) {old : Place} {srv : Srv}
    → get_elem? p.places i ≡ some old
    → ((j : ℕ) → (i == j) ≡ false → get_elem? s.heap j ≡ get_elem? p.servers.heap j)
    → ((j : ℕ) → (i == j) ≡ false → times j s.active ≡ times j p.servers.active)
    → get_elem? s.heap i ≡ some srv
    → FitsWith place srv (move p i place s) i
    → IsSound p
    → IsSound (move p i place s)
moved-IsSound p i place s was heap active found fits sound =
    others-IsSound p (move p i place s) i
      (λ j ne. (get_elem?-set_ne p.places i j place (ground arith), heap j ne, active j ne, refl))
      refl (move_fits p i place s was found fits) sound
