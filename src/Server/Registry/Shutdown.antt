-- ===== src/Server/Registry/Shutdown.antt =====
-- Shutting down all the servers, once and again.
use mdt_dialout_collector.Common.{
  ℕ, true, some, List, [], ◌∷◌, ◌++◌, ◌==◌, get_elem?, set, done, ◌≡◌, refl, arith, All, Bool-cases,
  inl, inr, subst, get_elem?-set_self, get_elem?-set_ne, get_elem?-lt, ◌∙◌, sym,
}
use mdt_dialout_collector.Server.Registry.{
  Srv, Servers, halts, shutdown, shutdown_all, initiate_shutdown,
}

-- The server at an address has been shut down.
abbrev pub IsDown : Servers → ℕ → Type 0
IsDown s i = (srv : Srv) × (get_elem? s.heap i ≡ some srv) × (srv.shutdown_done ≡ true)

-- An address at which there is a server.
abbrev pub IsThere : Servers → ℕ → Type 0
IsThere s i = (srv : Srv) × (get_elem? s.heap i ≡ some srv)

-- What one or more shutdowns keep.
abbrev Kept : Servers → Servers → Type 0
Kept s s' =
    (s'.active ≡ s.active)
    × ((j : ℕ) → IsThere s j → IsThere s' j)
    × ((j : ℕ) → IsDown s j → IsDown s' j)

shutdown-down : (i : ℕ) (s : Servers) → IsDown s i → shutdown i s ≡ done s
unfolding shutdown
shutdown-down i s (srv, found, is_down) = ground arith

abbrev mark : ℕ → Servers → Srv → Servers
mark i s srv = record s {
  heap = set s.heap i (record srv { shutdown_done = true });
  halted = s.halted ++ halts i srv;
}

mark-IsThere :
    (i j : ℕ) (s : Servers) (srv : Srv)
    → get_elem? s.heap i ≡ some srv
    → IsThere s j
    → IsThere (mark i s srv) j
mark-IsThere i j s srv found (x, there) = elim (Bool-cases (i == j)) [
  | inl e ↦ (
    record srv { shutdown_done = true },
    ground (
      arith,
      get_elem?-set_self s.heap i (record srv { shutdown_done = true })
          (get_elem?-lt s.heap i found),
    ),
  )
  | inr e ↦ (x, ground (arith, get_elem?-set_ne s.heap i j (record srv { shutdown_done = true })))
]

mark-IsDown :
    (i j : ℕ) (s : Servers) (srv : Srv)
    → get_elem? s.heap i ≡ some srv
    → IsDown s j
    → IsDown (mark i s srv) j
mark-IsDown i j s srv found (x, there, d) = elim (Bool-cases (i == j)) [
  | inl e ↦ (
    record srv { shutdown_done = true },
    ground (
      arith,
      get_elem?-set_self s.heap i (record srv { shutdown_done = true })
          (get_elem?-lt s.heap i found),
    ),
    refl,
  )
  | inr e ↦
      (x, ground (arith, get_elem?-set_ne s.heap i j (record srv { shutdown_done = true })), d)
]

shutdown-Kept :
    (i : ℕ) (s : Servers)
    → IsThere s i
    → (s' : Servers) × (shutdown i s ≡ done s') × Kept s s' × IsDown s' i
unfolding shutdown
shutdown-Kept i s (srv, found) = elim (Bool-cases srv.shutdown_done) [
  | inl e ↦ (s, ground arith, (refl, (λ j h. h), (λ j h. h)), (srv, found, e))
  | inr e ↦ (
    mark i s srv,
    ground arith,
    (refl, (λ j. mark-IsThere i j s srv found), (λ j. mark-IsDown i j s srv found)),
    (
      record srv { shutdown_done = true },
      get_elem?-set_self s.heap i (record srv { shutdown_done = true })
          (get_elem?-lt s.heap i found),
      refl,
    ),
  )
]

IsThere-Kept : (is : List ℕ) (s s' : Servers) → Kept s s' → All (IsThere s) is → All (IsThere s') is
IsThere-Kept [] s s' k h = h
IsThere-Kept (i ∷ is) s s' k (x, h) = (k.1 i x, IsThere-Kept is s s' k h)

shutdown_all-Kept :
    (is : List ℕ) (s : Servers)
    → All (IsThere s) is
    → (s' : Servers) × (shutdown_all is s ≡ done s') × Kept s s' × All (IsDown s') is
unfolding shutdown_all
shutdown_all-Kept [] s h = (s, refl, (refl, (λ j x. x), (λ j x. x)), h)
shutdown_all-Kept (i ∷ is) s (there, h) =
    let (s1, e1, k1, d1) = shutdown-Kept i s there in
    let (s2, e2, k2, d2) = shutdown_all-Kept is s1 (IsThere-Kept is s s1 k1 h) in
    (
      s2,
      rw (e1, e2),
      (k2.0 ∙ k1.0, (λ j x. k2.1 j (k1.1 j x)), (λ j x. k2.2 j (k1.2 j x))),
      (k2.2 i d1, d2),
    )

shutdown_all-down : (is : List ℕ) (s : Servers) → All (IsDown s) is → shutdown_all is s ≡ done s
unfolding shutdown_all
shutdown_all-down [] s h = refl
shutdown_all-down (i ∷ is) s (d, h) = rw (shutdown-down i s d) (shutdown_all-down is s h)

-- Where every registered pointer is that of a server, initiate_shutdown completes, whatever has
-- been shut down before. Then every registered server is shut down, the registry is as before, and a
-- second initiate_shutdown changes nothing: no object of gRPC is shut down again.
pub initiate_shutdown-IsDown :
    (s : Servers)
    → All (IsThere s) s.active
    → (s' : Servers) × (initiate_shutdown s ≡ done s')
      × All (IsDown s') s.active
      × (s'.active ≡ s.active)
      × (initiate_shutdown s' ≡ done s')
unfolding initiate_shutdown
initiate_shutdown-IsDown s h =
    let (s', e, k, d) = shutdown_all-Kept s.active s h in
    (s', e, d, k.0, shutdown_all-down s'.active s' (subst (λ is. All (IsDown s') is) (sym k.0) d))
