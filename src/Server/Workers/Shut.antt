-- ===== src/Server/Workers/Shut.antt =====
-- What Srv::Shutdown does to one server, and what unregister_server does to the registry.
use mdt_dialout_collector.Common.{
  ℕ, true, false, ◌==◌, none, some, ◌++◌, get_elem?, get_elem?-set_self, get_elem?-set_ne,
  get_elem?-lt, set, ◌≡◌, refl, sym, ◌∙◌, subst, arith, Bool-cases, Option-cases, inl, inr, done,
  done-injective,
}
use mdt_dialout_collector.Server.Registry.{Srv, Servers, halts, shutdown}

-- What the shutdown of a server leaves: the registry and the others as they are, and itself down.
abbrev pub Shut : ℕ → Servers → Servers → Type 0
Shut i s s' =
    (s'.active ≡ s.active)
    × ((j : ℕ) → (i == j) ≡ false → get_elem? s'.heap j ≡ get_elem? s.heap j)
    × (srv : Srv) × (get_elem? s'.heap i ≡ some srv)
    × (srv.shutdown_done ≡ true)

pub shutdown_twice :
    (i : ℕ) (s : Servers) (srv : Srv)
    → get_elem? s.heap i ≡ some srv
    → srv.shutdown_done ≡ true
    → shutdown i s ≡ done s
unfolding shutdown
shutdown_twice i s srv found down = ground arith

abbrev pub marked : ℕ → Servers → Srv → Servers
marked i s srv = record s {
  heap = set s.heap i (record srv { shutdown_done = true });
  halted = s.halted ++ halts i srv;
}

pub shutdown_once :
    (i : ℕ) (s : Servers) (srv : Srv)
    → get_elem? s.heap i ≡ some srv
    → srv.shutdown_done ≡ false
    → shutdown i s ≡ done (marked i s srv)
unfolding shutdown
shutdown_once i s srv found up = ground arith

shutdown_nowhere : (i : ℕ) (s s' : Servers) → get_elem? s.heap i ≡ none → shutdown i s ≡ done s' → ⊥
unfolding shutdown
shutdown_nowhere i s s' missing h = ground arith

pub shutdown-Shut : (i : ℕ) (s s' : Servers) → shutdown i s ≡ done s' → Shut i s s'
shutdown-Shut i s s' h = elim (Option-cases (get_elem? s.heap i)) [
  | inl missing ↦ absurd (shutdown_nowhere i s s' missing h)
  | inr (srv, found) ↦ elim (Bool-cases srv.shutdown_done) [
    | inl down ↦
        subst (Shut i s) (done-injective (sym (shutdown_twice i s srv found down) ∙ h))
          (refl, (λ j ne. refl), srv, found, down)
    | inr up ↦ subst (Shut i s) (done-injective (sym (shutdown_once i s srv found up) ∙ h)) (
      refl,
      (λ j ne. get_elem?-set_ne s.heap i j (record srv { shutdown_done = true }) (ground arith)),
      record srv { shutdown_done = true },
      get_elem?-set_self s.heap i (record srv { shutdown_done = true })
          (get_elem?-lt s.heap i found),
      refl,
    )
  ]
]
