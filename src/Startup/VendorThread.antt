-- ===== src/Startup/VendorThread.antt =====
-- VendorThread, of the daemon and of the bridge: the Bind function that a thread runs.
use mdt_dialout_collector.Common.{
  ℕ, String, Bool, true, false, ◌&&◌, ◌||◌, ◌==◌, Option, [], ◌∷◌, ◌≡◌, refl, if◌then◌else◌,
  Partial, done, bind,
}
use mdt_dialout_collector.Common.Text.{Bytes, codes}
use mdt_dialout_collector.Config.Params.{Params, value_at}
use mdt_dialout_collector.Config.Load.{Config}
use mdt_dialout_collector.Config.Main.Accepts.{main_params}
use mdt_dialout_collector.Config.Main.Reads.{main_params-MainReads}
use mdt_dialout_collector.Server.Registry.{Servers}
use mdt_dialout_collector.Server.Bind.{cisco_bind, juniper_bind, nokia_bind, huawei_bind}

-- The text begins with another one, and has it as a part: `find` that is not `npos`, and `strstr`.
abbrev pub starts_with : Bytes → Bytes → Bool
starts_with s [] = true
starts_with [] (_ ∷ _) = false
starts_with (c ∷ s) (d ∷ t) = c == d && starts_with s t

unfoldable pub has_part : Bytes → Bytes → Bool
has_part [] part = starts_with [] part
has_part (c ∷ s) part = starts_with (c ∷ s) part || has_part s part

-- VendorThread, of the server at an address; `fsm_ctrl` is what runs between its registration and
-- its removal
module _ (read_text : String → Option Bytes) (main_cfg : Params) (started : Bool)
    (fsm_ctrl : Servers → Partial Servers) where
  unfoldable pub vendor_thread : String → ℕ → Servers → Partial Servers
  unfolding has_part
  vendor_thread socket_str i s = bind (value_at main_cfg socket_str) λ srv_socket.
      if has_part (codes socket_str) (codes "cisco")
      then cisco_bind read_text main_cfg started fsm_ctrl i s
      else if has_part (codes socket_str) (codes "juniper")
      then juniper_bind read_text main_cfg started fsm_ctrl i s
      else if has_part (codes socket_str) (codes "nokia")
      then nokia_bind read_text main_cfg started fsm_ctrl i s
      else if has_part (codes socket_str) (codes "huawei")
      then huawei_bind read_text main_cfg started fsm_ctrl i s
      else done s

-- With the settings of an accepted file, the thread that LoadThreads makes for a vendor runs that
-- vendor's Bind function.
pub vendor_thread_binds :
    (read_text : String → Option Bytes) (cfg : Config) (started : Bool)
    (fsm_ctrl : Servers → Partial Servers) (i : ℕ) (s : Servers)
    → let main = main_params cfg in
      let run =
        λ (socket_str : String). vendor_thread read_text main started fsm_ctrl socket_str i s in
      (run "socket_cisco" ≡ cisco_bind read_text main started fsm_ctrl i s)
      × (run "socket_juniper" ≡ juniper_bind read_text main started fsm_ctrl i s)
      × (run "socket_nokia" ≡ nokia_bind read_text main started fsm_ctrl i s)
      × (run "socket_huawei" ≡ huawei_bind read_text main started fsm_ctrl i s)
unfolding vendor_thread has_part value_at
vendor_thread_binds read_text cfg started fsm_ctrl i s =
    let r = main_params-MainReads cfg in
    (
      rw r.cisco.socket refl,
      rw r.juniper.socket refl,
      rw r.nokia.socket refl,
      rw r.huawei.socket refl,
    )
