-- ===== src/Startup/Bridge.antt =====
-- start_grpc_dialout_collector and stop_grpc_dialout_collector of the bridge, with
-- `g_active_workers`.
pub mod Total
pub mod Starts
pub mod Memory
use mdt_dialout_collector.Common.{
  String, Bool, true, false, ◌∷◌, none, some, List, [], ◌++◌, if◌then◌else◌, Partial, done, thrown,
  null_pointer, bind,
}
use mdt_dialout_collector.Config.Params.{Params, Load, accepted, rejected, threw}
use mdt_dialout_collector.Config.Load.{Machine}
use mdt_dialout_collector.Config.Logs.{lookup_logs_parameters}
use mdt_dialout_collector.Logging.{Logger, Making, get_logger, logs_handler, set_spdlog_sinks}
use mdt_dialout_collector.Server.Registry.{Servers, initiate_shutdown}
use mdt_dialout_collector.Startup.{Globals, load_settings}
use mdt_dialout_collector.Startup.Daemon.{no_sockets}
use mdt_dialout_collector.Startup.Threads.{load_bridge_threads}

-- The loggers and the servers of the process, `g_active_workers`, and the threads that have been
-- joined; a thread is named by the socket that it serves.
pub record Bridge : Type 0 where
  pub loggers : List Logger
  pub servers : Servers
  pub active_workers : List String
  pub joined : List String

-- Of which threads the creation succeeds, vendor by vendor.
pub record Created : Type 0 where
  pub cisco : List Bool
  pub juniper : List Bool
  pub nokia : List Bool
  pub huawei : List Bool

-- the four calls of LoadThreads
unfoldable pub load_vendor_threads : Params → Created → Partial (List String)
load_vendor_threads main c =
    bind (load_bridge_threads main c.cisco "socket_cisco" "replies_cisco" "cisco_workers") λ cisco.
      bind (load_bridge_threads main c.juniper "socket_juniper" "replies_juniper" "juniper_workers")
        λ juniper.
          bind (load_bridge_threads main c.nokia "socket_nokia" "replies_nokia" "nokia_workers")
            λ nokia.
              bind
                (load_bridge_threads main c.huawei "socket_huawei" "replies_huawei"
                  "huawei_workers")
                λ huawei. done (cisco ++ (juniper ++ (nokia ++ huawei)))

-- behind LoadOptions
unfoldable pub start_with : Created → Bridge → Load Globals → Partial Bridge
unfolding load_vendor_threads
start_with c b rejected = done b
start_with c b (threw e) = thrown e
start_with c b (accepted g) = bind (no_sockets g.main) λ nowhere.
    if nowhere
    then done b
    else (bind (load_vendor_threads g.main c)
        λ workers. done (record b { active_workers = b.active_workers ++ workers }))

-- LoadOptions up to the handler of the main section: the loggers that it leaves. The result of
-- set_spdlog_sinks is not read.
unfoldable pub start_loggers : Machine → String → Making → List Logger → Partial (List Logger)
start_loggers machine cfg_path making loggers = bind (logs_handler making loggers) λ booted.
    elim (lookup_logs_parameters machine cfg_path) [
      | rejected ↦ done booted
      | threw e ↦ thrown e
      | accepted logs ↦ bind (set_spdlog_sinks logs making booted) λ (_, known). done known
    ]

-- start_grpc_dialout_collector. What it does next with the loggers is a call on the multi-logger: in
-- the constructor of MainCfgHandler, or to say that LoadOptions failed.
unfoldable pub start_grpc_dialout_collector :
    Machine → String → String → Making → Created → Bridge → Partial Bridge
unfolding start_loggers start_with
start_grpc_dialout_collector machine cfg_path zmq_uri making c b =
    bind (start_loggers machine cfg_path making b.loggers) λ loggers.
      elim (get_logger "multi-logger" loggers) [
        | none ↦ thrown null_pointer
        | some _ ↦
            start_with c (record b { loggers = loggers }) (load_settings machine cfg_path zmq_uri)
      ]

-- `pthread_join` for one thread after the other, over which of the threads end: whether the loop comes
-- to its end, and the threads that have been joined
abbrev pub join_all : List String → List Bool → Bool × List String
join_all [] ends = (true, [])
join_all (w ∷ workers) [] = (false, [])
join_all (w ∷ workers) (ended ∷ ends) =
    let (all, joined) = join_all workers ends in if ended then (all, w ∷ joined) else (false, [])

-- stop_grpc_dialout_collector: initiate_shutdown, `swap`, and the joins, with whether it returns. A
-- thread ends where its server has been shut down, which one that registers too late is not.
unfoldable pub stop_grpc_dialout_collector : List Bool → Bridge → Partial (Bool × Bridge)
stop_grpc_dialout_collector ends b = bind (initiate_shutdown b.servers) λ s.
    let (returns, joined) = join_all b.active_workers ends in
    done (returns, record b { servers = s; active_workers = []; joined = b.joined ++ joined })
