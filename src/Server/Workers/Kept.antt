-- ===== src/Server/Workers/Kept.antt =====
-- Every step of the workers keeps their invariant.
use mdt_dialout_collector.Common.{
  ℕ, ◌+◌, ◌-◌, Bool, true, false, ◌==◌, Option, none, some, List, [], ◌∷◌, ◌++◌, if◌then◌else◌,
  get_elem?, get_elem?-set_self, get_elem?-set_ne, get_elem?-lt, set, count-append, ◌≡◌, refl, sym,
  ◌∙◌, ap, subst, arith, Option-cases, inl, inr, done, done-injective,
}
use mdt_dialout_collector.Server.Registry.{
  Vendor, Srv, Servers, register_server, erase_first, unregister_server, shutdown,
}
use mdt_dialout_collector.Server.Bind.{build_server}
use mdt_dialout_collector.Server.Workers.{
  Place, starting, built, serving, leaving, ending, gone, Process, move, Step, build, enter, leave,
  exit, destroy, snapshot, halt,
}
use mdt_dialout_collector.Server.Workers.Shut.{shutdown_twice, shutdown-Shut}
use mdt_dialout_collector.Server.Workers.Invariant.{
  times, Fits, FitsAt, IsSound, FitsWith, server_of, others-IsSound, moved-IsSound,
}

times-erase_first :
    (i j : ℕ) (xs : List ℕ)
    → times j (erase_first i xs) ≡ (if i == j then times j xs - 1 else times j xs)
times-erase_first i j [] = ground arith
times-erase_first i j (x ∷ xs) = ground (arith, times-erase_first i j xs)

times_append :
    (i j : ℕ) (xs : List ℕ) → times j (xs ++ (i ∷ [])) ≡ times j xs + (if i == j then 1 else 0)
times_append i j xs = count-append (λ x. x == j) xs (i ∷ []) ∙ ground arith

pub built_server :
    (vendor : Vendor) (started : Bool) (i : ℕ) (s : Servers) (srv : Srv)
    → get_elem? s.heap i ≡ some srv
    → build_server vendor started i s ≡ record s {
      heap =
          set s.heap i (record srv { active_vendor = vendor; has_server = started; has_cq = true });
    }
unfolding build_server
built_server vendor started i s srv found = ground arith

build-IsSound :
    (p : Process) (i : ℕ) (vendor : Vendor) (started : Bool)
    → get_elem? p.places i ≡ some starting
    → IsSound p
    → IsSound (move p i built (build_server vendor started i p.servers))
build-IsSound p i vendor started at sound =
    let (srv, found, (reg, rest, down, begun)) = server_of p i starting at (sound i) in
    let srv' = record srv { active_vendor = vendor; has_server = started; has_cq = true } in
    rw (built_server vendor started i p.servers srv found) (
      moved-IsSound p i built (record p.servers { heap = set p.servers.heap i srv' }) at
        (λ j ne. get_elem?-set_ne p.servers.heap i j srv' (ground arith)) (λ j ne. refl)
        (get_elem?-set_self p.servers.heap i srv' (get_elem?-lt p.servers.heap i found))
        (reg, rest, refl, begun) sound)

enter-IsSound :
    (p : Process) (i : ℕ)
    → get_elem? p.places i ≡ some built
    → IsSound p
    → IsSound (move p i serving (register_server i p.servers))
unfolding register_server
enter-IsSound p i at sound =
    let (srv, found, (reg, rest, down, begun)) = server_of p i built at (sound i) in
    moved-IsSound p i serving (register_server i p.servers) at (λ j ne. refl)
      (λ j ne. rw (times_append i j p.servers.active) (ground arith)) found
      (rw (times_append i i p.servers.active) (ground arith), ground arith, refl, begun) sound

leave-IsSound :
    (p : Process) (i : ℕ) (srv : Srv)
    → get_elem? p.places i ≡ some serving
    → get_elem? p.servers.heap i ≡ some srv
    → srv.shutdown_done ≡ true
    → IsSound p
    → IsSound (move p i leaving p.servers)
leave-IsSound p i srv at found is_down sound =
    let (reg, rest, down, begun) : FitsWith serving srv p i = rw (at, found) at (sound i) in
    moved-IsSound p i leaving p.servers at (λ j ne. refl) (λ j ne. refl) found
      (reg, ground arith, ground arith, begun) sound

exit-IsSound :
    (p : Process) (i : ℕ)
    → get_elem? p.places i ≡ some leaving
    → IsSound p
    → IsSound (move p i ending (unregister_server i p.servers))
unfolding unregister_server
exit-IsSound p i at sound =
    let (srv, found, (reg, rest, down, begun)) = server_of p i leaving at (sound i) in
    moved-IsSound p i ending (unregister_server i p.servers) at (λ j ne. refl)
      (λ j ne. rw (times-erase_first i j p.servers.active) (ground arith)) found
      (rw (times-erase_first i i p.servers.active) (ground arith), rest, down, begun) sound

destroy-IsSound :
    (p : Process) (i : ℕ) (s : Servers)
    → get_elem? p.places i ≡ some ending
    → shutdown i p.servers ≡ done s
    → IsSound p
    → IsSound (move p i gone s)
destroy-IsSound p i s at h sound =
    let (srv, found, (reg, rest, down, begun)) = server_of p i ending at (sound i) in
    let same : p.servers ≡ s =
      done-injective (sym (shutdown_twice i p.servers srv found (ground arith)) ∙ h) in
    subst (λ v. IsSound (move p i gone v)) same
      (moved-IsSound p i gone p.servers at (λ j ne. refl) (λ j ne. refl) found
        (reg, rest, down, begun) sound)

snapshot-Fits :
    (place : Option Place) (srv : Option Srv) (reg : ℕ)
    → Fits place srv reg 0 false
    → Fits place srv reg reg true
snapshot-Fits none none reg (a, b) = (a, a)
snapshot-Fits none (some _) reg fits = fits
snapshot-Fits (some _) none reg fits = fits
snapshot-Fits (some place) (some srv) reg (a, b, c, d) = (a, ground arith, c, refl)

snapshot-IsSound :
    (p : Process) → p.call ≡ none → IsSound p → IsSound (record p { call = some p.servers.active })
snapshot-IsSound p idle sound i =
    snapshot-Fits (get_elem? p.places i) (get_elem? p.servers.heap i) (times i p.servers.active)
      (rw idle at (sound i))

-- A worker that the call still has to shut down is in RunFsm, with its queue up.
pub pending_serving :
    (p : Process) (i : ℕ) (rest : List ℕ)
    → p.call ≡ some (i ∷ rest)
    → FitsAt p i
    → (srv : Srv) × (get_elem? p.places i ≡ some serving)
      × (get_elem? p.servers.heap i ≡ some srv)
      × (srv.shutdown_done ≡ false)
      × (times i p.servers.active ≡ 1)
      × (times i rest ≡ 0)
pending_serving p i rest running fits = elim (Option-cases (get_elem? p.places i)) [
  | inl missing ↦ elim (Option-cases (get_elem? p.servers.heap i)) [
    | inl none_there ↦
        let (reg, none_waits) : Fits none none (times i p.servers.active) (times i (i ∷ rest))
            true =
          rw (missing, none_there, running) at fits in
        absurd (ground arith)
    | inr (srv, found) ↦ absurd (rw (missing, found) at fits)
  ]
  | inr (place, at) ↦
      let (srv, found, fits') = server_of p i place at fits in
      let (reg, waiting, down, begun) : Fits (some place) (some srv) (times i p.servers.active)
          (times i (i ∷ rest)) true =
        rw running at fits' in
      (srv, ground arith, found, ground arith, ground arith, ground arith)
]

halt-IsSound :
    (p : Process) (i : ℕ) (rest : List ℕ) (s : Servers)
    → p.call ≡ some (i ∷ rest)
    → shutdown i p.servers ≡ done s
    → IsSound p
    → IsSound (record p { call = some rest; servers = s })
halt-IsSound p i rest s running h sound =
    let (srv, at, found, up, once, last) = pending_serving p i rest running (sound i) in
    let (active, heap, srv', found', down) = shutdown-Shut i p.servers s h in
    others-IsSound p (record p { call = some rest; servers = s }) i
      (λ j ne. (refl, heap j ne, ap (times j) active, rw running (ground arith))) (rw running refl)
      (rw (at, found', down, active, last) (once, omega arith, refl, refl)) sound

pub Step-IsSound : (p q : Process) → Step p q → IsSound p → IsSound q
Step-IsSound p _ (build i vendor started at) sound = build-IsSound p i vendor started at sound
Step-IsSound p _ (enter i at) sound = enter-IsSound p i at sound
Step-IsSound p _ (leave i at found down) sound = leave-IsSound p i _ at found down sound
Step-IsSound p _ (exit i at) sound = exit-IsSound p i at sound
Step-IsSound p _ (destroy i at h) sound = destroy-IsSound p i _ at h sound
Step-IsSound p _ (snapshot idle) sound = snapshot-IsSound p idle sound
Step-IsSound p _ (halt i rest running h) sound = halt-IsSound p i rest _ running h sound
