-- ===== src/Tests/Workers.antt =====
-- Workers that serve and are shut down, step by step.
use mdt_dialout_collector.Common.{
  zero, suc, ◌≤◌, ◌+◌, true, false, some, none, Option, String, done, [], ◌∷◌, get_elem?, ◌≡◌, refl,
  arith,
}
use mdt_dialout_collector.Server.Registry.{
  cisco, server_down, queue_down, Srv, register_server, unregister_server, shutdown,
}
use mdt_dialout_collector.Common.Text.{Bytes}
use mdt_dialout_collector.Config.Params.{Params, find, value_at}
use mdt_dialout_collector.Server.Bind.{build_server, insecure, make_server_credentials}
use mdt_dialout_collector.Server.Workers.Binds.{entered, left, vendor_bind, vendor_bind-Run}
use mdt_dialout_collector.Server.Workers.{
  built, serving, gone, Process, build, enter, leave, exit, destroy, snapshot, halt, Run, here,
  next,
}
use mdt_dialout_collector.Server.Workers.Progress.{CanStep, to_go}
use mdt_dialout_collector.Server.Workers.Ends.{started_workers, halted_lives, shutdown_completes}
use mdt_dialout_collector.Server.Workers.Late.{IsLate, Run-IsLate}

-- A worker of Cisco, up or shut down.
abbrev pub serving_srv : Srv
serving_srv = record {
  shutdown_done = false;
  active_vendor = cisco;
  has_server = true;
  has_cq = true;
}

abbrev pub down_srv : Srv
down_srv = record serving_srv { shutdown_done = true }

-- One worker serves, and the call has copied the registry.
abbrev pub copied : Process
copied = record {
  places = serving ∷ [];
  servers = record { heap = serving_srv ∷ []; active = 0 ∷ []; halted = [] };
  call = some (0 ∷ []);
}

up_to_copy : Run 3 (started_workers 1) copied
unfolding build_server register_server
up_to_copy = next (build 0 cisco true refl) (next (enter 0 refl) (next (snapshot refl) here))

halted_lives_example :
    (get_elem? copied.places 0 ≡ some serving)
    × (srv : Srv) × (get_elem? copied.servers.heap 0 ≡ some srv)
    × (srv.shutdown_done ≡ false)
halted_lives_example = halted_lives 1 3 copied 0 [] up_to_copy refl

abbrev pub over : Process
over = record {
  places = gone ∷ [];
  servers = record {
    heap = down_srv ∷ [];
    active = [];
    halted = server_down cisco 0 ∷ queue_down cisco 0 ∷ [];
  };
  call = some [];
}

down_to_end : Run 4 copied over
unfolding shutdown unregister_server
down_to_end =
    next (halt 0 [] refl refl)
      (next (leave 0 refl refl refl) (next (exit 0 refl) (next (destroy 0 refl refl) here)))

pub over_stuck : ¬ CanStep over
over_stuck (r, build zero vendor started at) = absurd (cc)
over_stuck (r, build (suc i) vendor started at) = absurd (cc)
over_stuck (r, enter zero at) = absurd (cc)
over_stuck (r, enter (suc i) at) = absurd (cc)
over_stuck (r, leave zero at found down) = absurd (cc)
over_stuck (r, leave (suc i) at found down) = absurd (cc)
over_stuck (r, exit zero at) = absurd (cc)
over_stuck (r, exit (suc i) at) = absurd (cc)
over_stuck (r, destroy zero at h) = absurd (cc)
over_stuck (r, destroy (suc i) at h) = absurd (cc)
over_stuck (r, snapshot idle) = absurd (cc)
over_stuck (r, halt i rest running h) = absurd (cc)

shutdown_completes_example : (get_elem? over.places 0 ≡ some gone) × (4 ≤ to_go copied)
shutdown_completes_example =
    shutdown_completes 1 3 4 copied over 0 (0 ∷ []) up_to_copy refl (omega arith) down_to_end
      over_stuck

-- A worker is built, and the call has copied the registry without it.
abbrev passed : Process
passed = record {
  places = built ∷ [];
  servers = record { heap = serving_srv ∷ []; active = []; halted = [] };
  call = some [];
}

abbrev left_over : Process
left_over = record passed {
  places = serving ∷ [];
  servers = record { heap = serving_srv ∷ []; active = 0 ∷ []; halted = [] };
}

enters_late : Run 1 passed left_over
unfolding register_server
enters_late = next (enter 0 refl) here

Run-IsLate_example : IsLate 0 left_over
Run-IsLate_example =
    Run-IsLate 1 passed left_over 0 [] refl (built, serving_srv, refl, refl, refl, refl, refl)
      enters_late

-- Behind the registration, the call has shut the server down.
abbrev halted : Process
halted = record {
  places = serving ∷ [];
  servers = record {
    heap = down_srv ∷ [];
    active = 0 ∷ [];
    halted = server_down cisco 0 ∷ queue_down cisco 0 ∷ [];
  };
  call = some [];
}

meanwhile : Run 2 (entered cisco true 0 (started_workers 1)) halted
unfolding build_server register_server shutdown
meanwhile = next (snapshot refl) (next (halt 0 [] refl refl) here)

abbrev without_tls : Params
without_tls = ("enable_tls", "false") ∷ []

abbrev no_text : String → Option Bytes
no_text path = none

shut_by_call : shutdown 0 (entered cisco true 0 (started_workers 1)).servers ≡ done halted.servers
unfolding build_server register_server shutdown
shut_by_call = refl

without_credentials : make_server_credentials no_text without_tls ≡ done insecure
unfolding make_server_credentials value_at find
without_credentials = refl

vendor_bind-Run_example :
    (vendor_bind no_text without_tls true (shutdown 0) cisco 0 (started_workers 1).servers
      ≡ done (left 0 halted).servers)
    × Run (2 + 4) (started_workers 1) (left 0 halted)
vendor_bind-Run_example =
    vendor_bind-Run no_text without_tls true (shutdown 0) cisco 0 2 (started_workers 1) halted
      (λ same. cc) without_credentials refl meanwhile shut_by_call refl refl refl
