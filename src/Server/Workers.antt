-- ===== src/Server/Workers.antt =====
-- The worker threads and a call of initiate_shutdown, step by step: VendorThread, the Bind function
-- that it calls, and the destructor of its Srv, in any order of the threads. The registry's mutex
-- makes each of its accesses one step; the servers are shut down outside of it.
pub mod Shut
pub mod Invariant
pub mod Kept
pub mod Progress
pub mod Ends
pub mod Late
pub mod Binds
use mdt_dialout_collector.Common.{
  ℕ, suc, Bool, true, Option, none, some, List, ◌∷◌, get_elem?, set, ◌≡◌, done,
}
use mdt_dialout_collector.Server.Registry.{
  Vendor, Srv, Servers, register_server, unregister_server, shutdown,
}
use mdt_dialout_collector.Server.Bind.{build_server}

-- Where a worker stands.
pub data Place : Type 0 where
  starting : Place  -- before the builder
  built : Place  -- before register_server
  serving : Place  -- in RunFsm
  leaving : Place  -- before unregister_server
  ending : Place  -- before the destructor of its Srv
  gone : Place

-- The places of the workers, each of whose Srv is the one at the worker's own index, and a call of
-- initiate_shutdown: none before it, and then what is left of its snapshot.
pub record Process : Type 0 where
  pub places : List Place
  pub servers : Servers
  pub call : Option (List ℕ)

abbrev pub move : Process → ℕ → Place → Servers → Process
move p i place s = record p { places = set p.places i place; servers = s }

pub data Step (p : Process) : Process → Type 0 where
  -- the builder
  build :
      (i : ℕ) (vendor : Vendor) (started : Bool)
      → get_elem? p.places i ≡ some starting
      → Step p (move p i built (build_server vendor started i p.servers))
  -- register_server(this)
  enter :
      (i : ℕ)
      → get_elem? p.places i ≡ some built
      → Step p (move p i serving (register_server i p.servers))
  -- RunFsm ends: `cq->Next` is false only once the queue has been shut down
  leave :
      (i : ℕ) {srv : Srv}
      → get_elem? p.places i ≡ some serving
      → get_elem? p.servers.heap i ≡ some srv
      → srv.shutdown_done ≡ true
      → Step p (move p i leaving p.servers)
  -- unregister_server(this)
  exit :
      (i : ℕ)
      → get_elem? p.places i ≡ some leaving
      → Step p (move p i ending (unregister_server i p.servers))
  -- ~Srv, which calls Shutdown
  destroy :
      (i : ℕ) {s : Servers}
      → get_elem? p.places i ≡ some ending
      → shutdown i p.servers ≡ done s
      → Step p (move p i gone s)
  -- initiate_shutdown copies the registry
  snapshot : p.call ≡ none → Step p (record p { call = some p.servers.active })
  -- `s->Shutdown()` for the next of the snapshot
  halt :
      (i : ℕ) (rest : List ℕ) {s : Servers}
      → p.call ≡ some (i ∷ rest)
      → shutdown i p.servers ≡ done s
      → Step p (record p { call = some rest; servers = s })

-- Some number of steps.
pub data Run : ℕ → Process → Process → Type 0 where
  here : {p : Process} → Run 0 p p
  next : {n : ℕ} {p q r : Process} → Step p q → Run n q r → Run (suc n) p r
