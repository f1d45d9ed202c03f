-- ===== src/Startup/Daemon/Workers.antt =====
-- The workers of a daemon that has come as far as its threads.
use mdt_dialout_collector.Common.{
  not, terminate, thrown, if◌then◌else◌, ℕ, zero, suc, ◌≤◌, String, true, false, none, some, Option,
  List, [], ◌++◌, length, length-append, ◌≡◌, refl, sym, ◌∙◌, arith, Option-cases, Bool-cases, inl,
  inr, All, Partial, done, bind-eq-done, done-injective, ap, subst,
}
use mdt_dialout_collector.Common.Text.{codes, is_empty}
use mdt_dialout_collector.Config.Params.{Params, find, value_at}
use mdt_dialout_collector.Config.Load.{Config, Machine}
use mdt_dialout_collector.Config.Main.{cisco_keys, juniper_keys, nokia_keys, huawei_keys}
use mdt_dialout_collector.Config.Main.Workers.{socket_value}
use mdt_dialout_collector.Config.Main.Accepts.{main_params}
use mdt_dialout_collector.Config.Main.Reads.{main_params-MainReads}
use mdt_dialout_collector.Logging.{Making}
use mdt_dialout_collector.Labels.Reload.{Csv}
use mdt_dialout_collector.Startup.Options.{options_valid}
use mdt_dialout_collector.Startup.Threads.{start_workers, load_threads, load_threads-cases}
use mdt_dialout_collector.Startup.Daemon.{Daemon, Opens, start_daemon}
use mdt_dialout_collector.Startup.Daemon.Starts.{
  label_map_of, has_no_socket, all_workers, daemon_of, start_daemon-daemon_of,
}

-- The workers of a vendor with this setting for its socket: from one to five, each of this socket,
-- or none where the setting is empty.
pub record VendorWorkers (socket socket_str : String) (workers : List String) : Type 0 where
  pub few : length workers ≤ 5
  pub none_if_empty : is_empty (codes socket) ≡ true → workers ≡ []
  pub some_if_set : is_empty (codes socket) ≡ false → 1 ≤ length workers
  pub all_of_it : All (λ w. w ≡ socket_str) workers

length-start_workers : (n : ℕ) (s : String) → length (start_workers n s) ≡ n
length-start_workers zero s = refl
length-start_workers (suc n) s = omega (arith, length-start_workers n s)

All-start_workers : (n : ℕ) (s : String) → All (λ w. w ≡ s) (start_workers n s)
All-start_workers zero s = tt
All-start_workers (suc n) s = (refl, All-start_workers n s)

-- Without a socket there are none, and with one there are as many as there are amounts for.
no_workers :
    (socket socket_str : String)
    → is_empty (codes socket) ≡ true
    → VendorWorkers socket socket_str []
no_workers socket socket_str empty = record {
  few = omega arith;
  none_if_empty = λ _. refl;
  some_if_set = λ set. absurd (cc);
  all_of_it = tt;
}

some_workers :
    (socket socket_str : String) (n : ℕ)
    → is_empty (codes socket) ≡ false
    → 1 ≤ n
    → n ≤ 5
    → VendorWorkers socket socket_str (start_workers n socket_str)
some_workers socket socket_str n set low high = record {
  few = omega (arith, length-start_workers n socket_str);
  none_if_empty = λ empty. absurd (cc);
  some_if_set = λ _. omega (arith, length-start_workers n socket_str);
  all_of_it = All-start_workers n socket_str;
}

load_threads_unset :
    (cfg : Params) (socket_str replies_str workers_str : String) {socket : String}
    → find socket_str cfg ≡ some socket
    → is_empty (codes socket) ≡ true
    → load_threads cfg socket_str replies_str workers_str ≡ done []
unfolding load_threads value_at
load_threads_unset cfg socket_str replies_str workers_str h empty = ground arith

load_threads-VendorWorkers :
    (cfg : Params) (socket_str replies_str workers_str : String) {socket : String}
    {workers : List String}
    → find socket_str cfg ≡ some socket
    → load_threads cfg socket_str replies_str workers_str ≡ done workers
    → VendorWorkers socket socket_str workers
load_threads-VendorWorkers cfg socket_str replies_str workers_str {socket} h loaded =
    elim (Bool-cases (is_empty (codes socket))) [
      | inl empty ↦
          subst (VendorWorkers socket socket_str)
            (done-injective
              (sym (load_threads_unset cfg socket_str replies_str workers_str h empty) ∙ loaded))
            (no_workers socket socket_str empty)
      | inr set ↦ elim (load_threads-cases cfg socket_str replies_str workers_str h) [
        | inl (empty, _) ↦ absurd (cc)
        | inr (inr (_, ends)) ↦ absurd (cc)
        | inr (inl (replies, n, (_, _, low, high), same)) ↦
            subst (VendorWorkers socket socket_str) (done-injective (sym same ∙ loaded))
              (some_workers socket socket_str n set low high)
      ]
    ]

-- What the four vendors come to.
pub record AllWorkers (cfg : Config) (workers : List String) : Type 0 where
  pub cisco : List String
  pub juniper : List String
  pub nokia : List String
  pub huawei : List String
  pub together : workers ≡ cisco ++ (juniper ++ (nokia ++ huawei))
  pub of_cisco : VendorWorkers (socket_value cfg cisco_keys) "socket_cisco" cisco
  pub of_juniper : VendorWorkers (socket_value cfg juniper_keys) "socket_juniper" juniper
  pub of_nokia : VendorWorkers (socket_value cfg nokia_keys) "socket_nokia" nokia
  pub of_huawei : VendorWorkers (socket_value cfg huawei_keys) "socket_huawei" huawei

length-AllWorkers :
    (cfg : Config) (workers : List String) → AllWorkers cfg workers → length workers ≤ 20
length-AllWorkers cfg workers w = rw w.together (
    omega (
      arith,
      length-append w.cisco (w.juniper ++ (w.nokia ++ w.huawei)),
      length-append w.juniper (w.nokia ++ w.huawei),
      length-append w.nokia w.huawei,
      w.of_cisco.few,
      w.of_juniper.few,
      w.of_nokia.few,
      w.of_huawei.few,
    ))

one_worker :
    (cfg : Config) (workers : List String)
    → AllWorkers cfg workers
    → has_no_socket cfg ≡ false
    → 1 ≤ length workers
one_worker cfg workers w some_socket = rw w.together (
    let all = length-append w.cisco (w.juniper ++ (w.nokia ++ w.huawei)) in
    let behind = length-append w.juniper (w.nokia ++ w.huawei) in
    let last = length-append w.nokia w.huawei in
    elim (Bool-cases (is_empty (codes (socket_value cfg cisco_keys)))) [
      | inr set ↦ omega (arith, all, w.of_cisco.some_if_set set)
      | inl c ↦ elim (Bool-cases (is_empty (codes (socket_value cfg juniper_keys)))) [
        | inr set ↦ omega (arith, all, behind, w.of_juniper.some_if_set set)
        | inl j ↦ elim (Bool-cases (is_empty (codes (socket_value cfg nokia_keys)))) [
          | inr set ↦ omega (arith, all, behind, last, w.of_nokia.some_if_set set)
          | inl n ↦ elim (Bool-cases (is_empty (codes (socket_value cfg huawei_keys)))) [
            | inr set ↦ omega (arith, all, behind, last, w.of_huawei.some_if_set set)
            | inl h ↦ absurd (ground arith)
          ]
        ]
      ]
    ])

all_workers-AllWorkers :
    (cfg : Config) {workers : List String}
    → all_workers (main_params cfg) ≡ done workers
    → AllWorkers cfg workers
all_workers-AllWorkers cfg h =
    let r = main_params-MainReads cfg in
    let (cisco, e1, h1) =
      bind-eq-done (load_threads (main_params cfg) "socket_cisco" "replies_cisco" "cisco_workers") _
        h in
    let (juniper, e2, h2) =
      bind-eq-done
        (load_threads (main_params cfg) "socket_juniper" "replies_juniper" "juniper_workers") _
        h1 in
    let (nokia, e3, h3) =
      bind-eq-done (load_threads (main_params cfg) "socket_nokia" "replies_nokia" "nokia_workers") _
        h2 in
    let (huawei, e4, h4) =
      bind-eq-done
        (load_threads (main_params cfg) "socket_huawei" "replies_huawei" "huawei_workers") _ h3 in
    record {
      cisco = cisco;
      juniper = juniper;
      nokia = nokia;
      huawei = huawei;
      together = sym (done-injective h4);
      of_cisco =
          load_threads-VendorWorkers (main_params cfg) "socket_cisco" "replies_cisco"
            "cisco_workers" r.cisco.socket e1;
      of_juniper =
          load_threads-VendorWorkers (main_params cfg) "socket_juniper" "replies_juniper"
            "juniper_workers" r.juniper.socket e2;
      of_nokia =
          load_threads-VendorWorkers (main_params cfg) "socket_nokia" "replies_nokia"
            "nokia_workers" r.nokia.socket e3;
      of_huawei =
          load_threads-VendorWorkers (main_params cfg) "socket_huawei" "replies_huawei"
            "huawei_workers" r.huawei.socket e4;
    }

opened :
    {A : Type 0} (opens : Opens) (rest : Partial A) {a : A}
    → (if not opens.sock_pull
        then thrown terminate
        else if not opens.shutdown_pipe
        then thrown terminate
        else rest)
      ≡ done a
    → (opens.sock_pull ≡ true) × (opens.shutdown_pipe ≡ true) × (rest ≡ done a)
opened opens rest h = elim (Bool-cases opens.sock_pull) [
  | inr off ↦ absurd (ground arith)
  | inl on ↦ elim (Bool-cases opens.shutdown_pipe) [
    | inr off ↦ absurd (ground arith)
    | inl piped ↦ (on, piped, rw (on, piped) at h)
  ]
]

daemon_of_done :
    (files : Csv) (opens : Opens) (cfg : Config) {d : Daemon}
    → daemon_of files opens cfg ≡ done (some d)
    → (has_no_socket cfg ≡ false)
      × (opens.sock_pull ≡ true)
      × (opens.shutdown_pipe ≡ true)
      × (all_workers (main_params cfg) ≡ done d.workers)
daemon_of_done files opens cfg {d} h =
    let (m, loaded, h1) = bind-eq-done (label_map_of files cfg) _ h in
    elim (Bool-cases (has_no_socket cfg)) [
      | inl nowhere ↦ absurd (let h2 = rw nowhere at h1 in cc)
      | inr somewhere ↦
          let (on, piped, h2) = opened opens _ (rw somewhere at h1) in
          let (workers, started, same) = bind-eq-done (all_workers (main_params cfg)) _ h2 in
          (
            somewhere,
            on,
            piped,
            started
                ∙ ap done (
                    ap (λ (o : Option Daemon). elim o [ none ↦ workers | some e ↦ e.workers ])
                      (done-injective same)),
          )
    ]

-- Where spdlog makes the sinks and main comes as far as the joins, the configuration file is there
-- and accepted, and the poller and the signal pipe are open. The workers are from one to twenty: for
-- each vendor from one to five that serve its socket, and none for a vendor without one.
pub start_daemon-AllWorkers :
    (machine : Machine) (files : Csv) (making : Making) (opens : Opens) (cfg_path : String)
    {d : Daemon}
    → making.syslog ≡ true
    → making.console ≡ true
    → start_daemon machine files making opens cfg_path ≡ done (some d)
    → (cfg : Config) × (machine.read_file cfg_path ≡ some cfg)
      × (options_valid machine cfg ≡ true)
      × (opens.sock_pull ≡ true)
      × (opens.shutdown_pipe ≡ true)
      × AllWorkers cfg d.workers
      × (1 ≤ length d.workers)
      × (length d.workers ≤ 20)
start_daemon-AllWorkers machine files making opens cfg_path {d} syslog console starts =
    let h =
      sym (start_daemon-daemon_of machine files making opens cfg_path syslog console) ∙ starts in
    elim (Option-cases (machine.read_file cfg_path)) [
      | inl missing ↦ absurd (let h1 = rw missing at h in cc)
      | inr (cfg, found) ↦ elim (Bool-cases (options_valid machine cfg)) [
        | inr bad ↦ absurd (let h1 = rw (found, bad) at h in cc)
        | inl valid ↦ elim (Bool-cases opens.pid_file) [
          | inr off ↦ absurd (let h1 = rw (found, valid, off) at h in cc)
          | inl on ↦
              let (somewhere, bound, piped, started) =
                daemon_of_done files opens cfg (rw (found, valid, on) at h) in
              let all = all_workers-AllWorkers cfg started in
              (
                cfg,
                found,
                valid,
                bound,
                piped,
                all,
                one_worker cfg d.workers all somewhere,
                length-AllWorkers cfg d.workers all,
              )
        ]
      ]
    ]
