-- ===== src/Server/Workers/Binds.antt =====
-- A Bind function of src/core/mdt_dialout_core.cc as steps of its worker.
use mdt_dialout_collector.Common.{
  ℕ, zero, suc, ◌+◌, String, Bool, true, Option, some, get_elem?, set, get_elem?-set_self,
  get_elem?-lt, ◌≡◌, refl, subst, arith, Partial, done, bind,
}
use mdt_dialout_collector.Common.Text.{Bytes}
use mdt_dialout_collector.Config.Params.{Params}
use mdt_dialout_collector.Server.Registry.{
  unset, cisco, juniper, nokia, huawei, Vendor, Srv, Servers, register_server, unregister_server,
}
use mdt_dialout_collector.Server.Bind.{
  Credentials, make_server_credentials, build_server, cisco_bind, juniper_bind, nokia_bind,
  huawei_bind,
}
use mdt_dialout_collector.Server.Workers.{
  starting, built, serving, leaving, ending, Place, Process, move, build, enter, leave, exit, Run,
  here, next,
}

-- A run and another one behind it.
pub append_runs : (m n : ℕ) (p q r : Process) → Run m p q → Run n q r → Run (m + n) p r
append_runs zero n p q r here behind = subst (λ k. Run k p r) (omega arith) behind
append_runs (suc m) n p q r (next {q = p1} step run) behind =
    subst (λ k. Run k p r) (omega arith) (next step (append_runs m n p1 q r run behind))

-- The worker of a vendor's server once it has built and registered it.
abbrev pub entered : Vendor → Bool → ℕ → Process → Process
entered vendor started i p =
    let s = build_server vendor started i p.servers in
    move (move p i built s) i serving (register_server i s)

-- The worker behind unregister_server.
abbrev pub left : ℕ → Process → Process
left i r = move (move r i leaving r.servers) i ending (unregister_server i r.servers)

place_kept :
    (p : Process) (i : ℕ) (s : Servers) {old : Place} (new : Place)
    → get_elem? p.places i ≡ some old
    → get_elem? (set p.places i new) i ≡ some new
place_kept p i s new at = get_elem?-set_self p.places i new (get_elem?-lt p.places i at)

-- What a Bind function is made of, for any vendor.
abbrev pub bind_steps : Vendor → Bool → (Servers → Partial Servers) → ℕ → Servers → Partial Servers
bind_steps vendor started fsm_ctrl i s =
    bind (fsm_ctrl (register_server i (build_server vendor started i s)))
      λ s'. done (unregister_server i s')

bind_steps-Run :
    (vendor : Vendor) (started : Bool) (fsm_ctrl : Servers → Partial Servers) (i n : ℕ)
    (p r : Process) {srv : Srv}
    → get_elem? p.places i ≡ some starting
    → Run n (entered vendor started i p) r
    → fsm_ctrl (entered vendor started i p).servers ≡ done r.servers
    → get_elem? r.places i ≡ some serving
    → get_elem? r.servers.heap i ≡ some srv
    → srv.shutdown_done ≡ true
    → (bind_steps vendor started fsm_ctrl i p.servers ≡ done (left i r).servers)
      × Run (n + 4) p (left i r)
bind_steps-Run vendor started fsm_ctrl i n p r at run returns serves there down = (
  rw returns refl,
  subst (λ k. Run k p (left i r)) (omega arith)
      (next (build i vendor started at) (
        next (enter i (place_kept p i p.servers built at)) (
          append_runs n 2 (entered vendor started i p) r (left i r) run (
            next (leave i serves there down)
              (next (exit i (place_kept r i r.servers leaving serves)) here))))),
)

module _ (read_text : String → Option Bytes) (main_cfg : Params) (started : Bool)
    (fsm_ctrl : Servers → Partial Servers) where
  -- The Bind function that a vendor's thread calls.
  abbrev pub vendor_bind : Vendor → ℕ → Servers → Partial Servers
  vendor_bind unset i s = done s
  vendor_bind cisco i s = cisco_bind read_text main_cfg started fsm_ctrl i s
  vendor_bind juniper i s = juniper_bind read_text main_cfg started fsm_ctrl i s
  vendor_bind nokia i s = nokia_bind read_text main_cfg started fsm_ctrl i s
  vendor_bind huawei i s = huawei_bind read_text main_cfg started fsm_ctrl i s

  vendor_bind-bind_steps :
      (vendor : Vendor) (i : ℕ) (s : Servers) {c : Credentials}
      → ¬ (vendor ≡ unset)
      → make_server_credentials read_text main_cfg ≡ done c
      → vendor_bind vendor i s ≡ bind_steps vendor started fsm_ctrl i s
  unfolding cisco_bind juniper_bind nokia_bind huawei_bind
  vendor_bind-bind_steps unset i s named made = absurd (named refl)
  vendor_bind-bind_steps cisco i s named made = rw made refl
  vendor_bind-bind_steps juniper i s named made = rw made refl
  vendor_bind-bind_steps nokia i s named made = rw made refl
  vendor_bind-bind_steps huawei i s named made = rw made refl

  -- The Bind function of each vendor is a run of its worker among the other threads: where it has its
  -- credentials, and its FsmCtrl returns with the servers as a run of all threads leaves them, in
  -- which the worker has stayed in RunFsm and its server has been shut down, the function returns
  -- the servers of a run that has four steps more, from before the builder to before the
  -- destructor.
  pub vendor_bind-Run :
      (vendor : Vendor) (i n : ℕ) (p r : Process) {srv : Srv} {c : Credentials}
      → ¬ (vendor ≡ unset)
      → make_server_credentials read_text main_cfg ≡ done c
      → get_elem? p.places i ≡ some starting
      → Run n (entered vendor started i p) r
      → fsm_ctrl (entered vendor started i p).servers ≡ done r.servers
      → get_elem? r.places i ≡ some serving
      → get_elem? r.servers.heap i ≡ some srv
      → srv.shutdown_done ≡ true
      → (vendor_bind vendor i p.servers ≡ done (left i r).servers) × Run (n + 4) p (left i r)
  vendor_bind-Run vendor i n p r named made at run returns serves there down =
      let (same, steps) =
        bind_steps-Run vendor started fsm_ctrl i n p r at run returns serves there down in
      (rw (vendor_bind-bind_steps vendor i p.servers named made) same, steps)
