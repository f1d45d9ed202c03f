-- ===== src/Server/Bind.antt =====
-- The four Bind functions, with what gRPC's builder calls back: the TLS credentials and the options
-- of the listening socket.
use text.Mathlib.Text.{◌==◌}
use mdt_dialout_collector.Common.{
  ℕ, String, Bool, true, not, Option, none, some, get_elem?, set, if◌then◌else◌, Partial, done,
  thrown, exit_failure, bind, found_or,
}
use mdt_dialout_collector.Common.Text.{Bytes}
use mdt_dialout_collector.Config.Params.{Params, value_at}
use mdt_dialout_collector.Server.Registry.{
  Vendor, cisco, juniper, nokia, huawei, Servers, register_server, unregister_server,
}

pub data Credentials : Type 0 where
  insecure : Credentials
  ssl : Bytes → Bytes → Credentials  -- the private key and the certificate

-- `std::abort()`, which is not told apart from `std::exit`
abbrev pub aborted : {A : Type 0} → Partial A
aborted = thrown exit_failure

module _ (read_text : String → Option Bytes) (main_cfg : Params) where
  -- slurp; `read_text` is the content of the file, none where it does not open
  abbrev pub slurp : String → Partial Bytes
  slurp path = found_or exit_failure (read_text path)

  -- make_server_credentials
  unfoldable pub make_server_credentials : Partial Credentials
  make_server_credentials = bind (value_at main_cfg "enable_tls") λ enable_tls.
      if not (enable_tls == "true")
      then done insecure
      else (bind (value_at main_cfg "tls_key_path") λ key_path. bind (slurp key_path) λ key.
          bind (value_at main_cfg "tls_cert_path")
            λ cert_path. bind (slurp cert_path) λ cert. done (ssl key cert))

-- CustomSocketMutator::bindtodevice_socket_mutator, over whether `getsockopt` and `setsockopt`
-- succeed; the log of the options is left out
unfoldable pub bindtodevice_socket_mutator : Params → Bool → Bool → Partial Bool
bindtodevice_socket_mutator main_cfg has_type bound = bind (value_at main_cfg "iface") λ iface.
    bind (value_at main_cfg "so_bindtodevice_check") λ sbc.
      if not has_type
      then aborted
      else if sbc == "true"
      then (if not bound then aborted else done true)
      else done true

-- `active_vendor_`, with the queue and the server that the builder makes; `started` is whether
-- BuildAndStart gives a server
unfoldable pub build_server : Vendor → Bool → ℕ → Servers → Servers
build_server vendor started i s = elim (get_elem? s.heap i) [
  | none ↦ s
  | some srv ↦ record s {
    heap =
        set s.heap i (record srv { active_vendor = vendor; has_server = started; has_cq = true });
  }
]

-- What stands between a Bind function and its end: `fsm_ctrl` is the vendor's FsmCtrl, in which the
-- other threads run too.
module _ (read_text : String → Option Bytes) (main_cfg : Params) (started : Bool)
    (fsm_ctrl : Servers → Partial Servers) where
  -- CiscoBind, of the server at an address
  unfoldable pub cisco_bind : ℕ → Servers → Partial Servers
  unfolding make_server_credentials build_server
  cisco_bind i s = bind (make_server_credentials read_text main_cfg) λ _.
      bind (fsm_ctrl (register_server i (build_server cisco started i s)))
        λ s'. done (unregister_server i s')

  -- JuniperBind
  unfoldable pub juniper_bind : ℕ → Servers → Partial Servers
  unfolding make_server_credentials build_server
  juniper_bind i s = bind (make_server_credentials read_text main_cfg) λ _.
      bind (fsm_ctrl (register_server i (build_server juniper started i s)))
        λ s'. done (unregister_server i s')

  -- NokiaBind
  unfoldable pub nokia_bind : ℕ → Servers → Partial Servers
  unfolding make_server_credentials build_server
  nokia_bind i s = bind (make_server_credentials read_text main_cfg) λ _.
      bind (fsm_ctrl (register_server i (build_server nokia started i s)))
        λ s'. done (unregister_server i s')

  -- HuaweiBind
  unfoldable pub huawei_bind : ℕ → Servers → Partial Servers
  unfolding make_server_credentials build_server
  huawei_bind i s = bind (make_server_credentials read_text main_cfg) λ _.
      bind (fsm_ctrl (register_server i (build_server huawei started i s)))
        λ s'. done (unregister_server i s')
