-- ===== src/Startup/Bridge/Total.antt =====
-- The threads that the start of the bridge creates, for every valid file.
use mdt_dialout_collector.Common.{
  ℕ, zero, suc, ◌≤◌, String, Bool, true, false, some, List, [], ◌∷◌, ◌++◌, ◌≡◌, refl, sym, ap,
  arith, length, length-append, Bool-cases, Partial-cases, inl, inr, Partial, done,
}
use mathlib.Core.List.{append-nil}
use mdt_dialout_collector.Common.Text.{codes, is_empty}
use mdt_dialout_collector.Config.Params.{Params, find, value_at, accept_if, accepted, rejected}
use mdt_dialout_collector.Config.Load.{Config}
use mdt_dialout_collector.Config.Main.Accepts.{main_params}
use mdt_dialout_collector.Config.Main.Reads.{main_params-MainReads}
use mdt_dialout_collector.Startup.Options.{options_of}
use mdt_dialout_collector.Startup.Daemon.Starts.{has_no_socket, no_sockets-main_params}
use mdt_dialout_collector.Startup.Threads.{
  create_workers, load_bridge_threads, read_amounts, within-cases,
}
use mdt_dialout_collector.Startup.Bridge.{Bridge, Created, load_vendor_threads, start_with}

length-create_workers :
    (n : ℕ) (created : List Bool) (socket_str : String)
    → length (create_workers n created socket_str) ≤ n
length-create_workers zero created socket_str = omega arith
length-create_workers (suc n) [] socket_str = omega (arith, length-create_workers n [] socket_str)
length-create_workers (suc n) (ok ∷ created) socket_str =
    ground (arith, length-create_workers n created socket_str)

-- LoadThreads for a vendor whose socket is known: it does not throw, and it fills no more places of
-- the vendor's array than the array has.
load_bridge_threads_bounded :
    (main : Params) (created : List Bool) (socket_str replies_str workers_str : String)
    {socket : String}
    → find socket_str main ≡ some socket
    → (workers : List String) × (load_bridge_threads main created socket_str replies_str workers_str
        ≡ done workers)
      × (length workers ≤ 5)
unfolding load_bridge_threads value_at
load_bridge_threads_bounded main created socket_str replies_str workers_str {socket} h =
    elim (Bool-cases (is_empty (codes socket))) [
      | inl e ↦ ([], ground arith, omega arith)
      | inr e ↦ elim (Partial-cases (read_amounts main replies_str workers_str)) [
        | inr (x, read) ↦ ([], ground arith, omega arith)
        | inl ((replies, amount), read) ↦ elim (within-cases 0 1000 replies) [
          | inr off ↦ ([], ground arith, omega arith)
          | inl (r, _, _, _, on) ↦ elim (within-cases 1 5 amount) [
            | inr off ↦ ([], ground arith, omega arith)
            | inl (n, is_n, _, few, on_workers) ↦ (
              create_workers n created socket_str,
              ground arith,
              omega (arith, length-create_workers n created socket_str),
            )
          ]
        ]
      ]
    ]

load_vendor_threads_bounded :
    (cfg : Config) (c : Created)
    → (workers : List String) × (load_vendor_threads (main_params cfg) c ≡ done workers)
      × (length workers ≤ 20)
unfolding load_vendor_threads
load_vendor_threads_bounded cfg c =
    let main = main_params cfg in
    let r = main_params-MainReads cfg in
    let (cs, ec, few_c) =
      load_bridge_threads_bounded main c.cisco "socket_cisco" "replies_cisco" "cisco_workers"
        r.cisco.socket in
    let (js, ej, few_j) =
      load_bridge_threads_bounded main c.juniper "socket_juniper" "replies_juniper"
        "juniper_workers" r.juniper.socket in
    let (ns, en, few_n) =
      load_bridge_threads_bounded main c.nokia "socket_nokia" "replies_nokia" "nokia_workers"
        r.nokia.socket in
    let (hs, eh, few_h) =
      load_bridge_threads_bounded main c.huawei "socket_huawei" "replies_huawei" "huawei_workers"
        r.huawei.socket in
    (
      cs ++ (js ++ (ns ++ hs)),
      rw (ec, ej, en, eh) refl,
      omega (
        arith,
        length-append cs (js ++ (ns ++ hs)),
        length-append js (ns ++ hs),
        length-append ns hs,
      ),
    )

unchanged : (b : Bridge) → done b ≡ done (record b { active_workers = b.active_workers ++ [] })
unchanged b = ap (λ ws. done (record b { active_workers = ws })) (sym (append-nil b.active_workers))

-- The start leaves the bridge with these threads more.
abbrev pub Starts : Bridge → Partial Bridge → Type 0
Starts b result =
    (workers : List String) × (result
      ≡ done (record b { active_workers = b.active_workers ++ workers }))
    × (length workers ≤ 20)

start_with-accepted :
    (uri : String) (cfg : Config) (c : Created) (b : Bridge)
    → Starts b (start_with c b (accepted (options_of uri cfg)))
unfolding start_with
start_with-accepted uri cfg c b = elim (Bool-cases (has_no_socket cfg)) [
  | inl nowhere ↦ ([], rw (no_sockets-main_params cfg, nowhere) (unchanged b), omega arith)
  | inr somewhere ↦
      let (workers, started, few) = load_vendor_threads_bounded cfg c in
      (workers, rw (no_sockets-main_params cfg, somewhere, started) refl, few)
]

start_with-rejected : (c : Created) (b : Bridge) → Starts b (start_with c b rejected)
unfolding start_with
start_with-rejected c b = ([], unchanged b, omega arith)

pub start_with-accept_if :
    (test : Bool) (uri : String) (cfg : Config) (c : Created) (b : Bridge)
    → Starts b (start_with c b (accept_if test (options_of uri cfg)))
start_with-accept_if true uri cfg c b = start_with-accepted uri cfg c b
start_with-accept_if false uri cfg c b = start_with-rejected c b
