-- ===== src/Server/Registry.antt =====
-- The registry of the running servers, and their shutdown.
pub mod Shutdown
use mdt_dialout_collector.Common.{
  ℕ, Bool, true, none, some, List, [], ◌∷◌, ◌++◌, ◌==◌, if◌then◌else◌, get_elem?, set, Partial,
  done, thrown, bind, use_after_free,
}

-- `enum class Vendor`
pub data Vendor : Type 0 where
  unset cisco juniper nokia huawei : Vendor

-- What shutting a server down does to the objects of gRPC.
pub data Halt : Type 0 where
  server_down queue_down : Vendor → ℕ → Halt

-- A `Srv`: whether `Shutdown` has run, and its vendor with that vendor's two objects, where they
-- have been built.
pub record Srv : Type 0 where
  pub shutdown_done : Bool
  pub active_vendor : Vendor
  pub has_server : Bool
  pub has_cq : Bool

-- The servers of the process by their addresses, the registry of pointers, and what was shut down.
pub record Servers : Type 0 where
  pub heap : List Srv
  pub active : List ℕ
  pub halted : List Halt

-- register_server
unfoldable pub register_server : ℕ → Servers → Servers
register_server srv s = record s { active = s.active ++ (srv ∷ []) }

-- `std::find` with `erase` of the place that it finds
abbrev pub erase_first : ℕ → List ℕ → List ℕ
erase_first srv [] = []
erase_first srv (x ∷ xs) = if x == srv then xs else x ∷ erase_first srv xs

-- unregister_server
unfoldable pub unregister_server : ℕ → Servers → Servers
unregister_server srv s = record s { active = erase_first srv s.active }

abbrev down_objects : ℕ → Srv → List Halt
down_objects i s =
    (if s.has_server then server_down s.active_vendor i ∷ [] else [])
    ++ (if s.has_cq then queue_down s.active_vendor i ∷ [] else [])

-- the switch over the vendor
abbrev pub halts : ℕ → Srv → List Halt
halts i s = elim s.active_vendor [ unset ↦ [] | _ ↦ down_objects i s ]

-- Srv::Shutdown, called by a pointer
unfoldable pub shutdown : ℕ → Servers → Partial Servers
shutdown i s = elim (get_elem? s.heap i) [
  | none ↦ thrown use_after_free
  | some srv ↦
      if srv.shutdown_done
      then done s
      else done (record s {
        heap = set s.heap i (record srv { shutdown_done = true });
        halted = s.halted ++ halts i srv;
      })
]

-- the loop of initiate_shutdown over its snapshot
unfoldable pub shutdown_all : List ℕ → Servers → Partial Servers
shutdown_all [] s = done s
shutdown_all (i ∷ is) s = bind (shutdown i s) λ s'. shutdown_all is s'

-- initiate_shutdown
unfoldable pub initiate_shutdown : Servers → Partial Servers
unfolding shutdown_all
initiate_shutdown s = shutdown_all s.active s
