-- ===== src/Server/FsmCtrl.antt =====
-- The four FsmCtrl functions as a whole: the context of the vendor, and RunFsm over the reports of
-- its completion queue.
pub mod Served
use mdt_dialout_collector.Common.{
  ℕ, String, Bool, List, ◌≡◌, refl, Partial, done, bind, false, true,
}
use text.Mathlib.Text.{◌==◌}
use mdt_dialout_collector.Common.Number.{ℤ, stoi}
use mdt_dialout_collector.Common.Text.{codes}
use mdt_dialout_collector.Json.{Jsoncpp}
use mdt_dialout_collector.Config.Load.{Config, Machine, effective}
use mdt_dialout_collector.Config.Main.{
  VendorKeys, cisco_keys, juniper_keys, nokia_keys, huawei_keys,
}
use mdt_dialout_collector.Config.Main.Workers.{socket_value}
use mdt_dialout_collector.Payload.Cisco.{Telemetry}
use mdt_dialout_collector.Payload.Juniper.{HeaderExtension}
use mdt_dialout_collector.Fsm.{Completion}
use mdt_dialout_collector.Fsm.Pool.{Slot, run_fsm}
use mdt_dialout_collector.Server.{Context, World}
use mdt_dialout_collector.Server.Cisco.{CiscoRequest, Protobuf, handle_cisco_message}
use mdt_dialout_collector.Server.Juniper.{JuniperRequest, handle_juniper_message}
use mdt_dialout_collector.Server.Nokia.{NokiaRequest, handle_nokia_message}
use mdt_dialout_collector.Server.Huawei.{HuaweiRequest, HuaweiProtobuf, handle_huawei_message}
use mdt_dialout_collector.Server.Handed.{Hands}
use mdt_dialout_collector.Server.Handed.Vendors.{
  cisco_hands, juniper_hands, nokia_hands, huawei_hands,
}
use mdt_dialout_collector.Server.Plumbing.{
  cisco_fsm_ctrl, juniper_fsm_ctrl, nokia_fsm_ctrl, huawei_fsm_ctrl,
}
use mdt_dialout_collector.Server.Plumbing.Total.{
  ContextFor, cisco_fsm_ctrl_total, juniper_fsm_ctrl_total, nokia_fsm_ctrl_total,
  huawei_fsm_ctrl_total,
}
use mdt_dialout_collector.Startup.{Globals}
use mdt_dialout_collector.Startup.Options.{options_valid, options_of}

-- What a run of a server gives: its streams, and the rest of the process.
abbrev pub Outcome : Type 0
Outcome = Partial (List Slot × World)

module _ (J : Jsoncpp) where
  -- CiscoFsmCtrl
  unfoldable pub run_cisco :
      Protobuf (Telemetry J.Real) → Globals → List (ℕ × Completion CiscoRequest) → World → Outcome
  run_cisco P g events w =
      bind (cisco_fsm_ctrl g) λ ctx. run_fsm (handle_cisco_message J P ctx) ctx.max_replies events w

  -- JuniperFsmCtrl
  unfoldable pub run_juniper :
      HeaderExtension → Globals → List (ℕ × Completion (JuniperRequest J.Real)) → World → Outcome
  run_juniper H g events w =
      bind (juniper_fsm_ctrl g)
        λ ctx. run_fsm (handle_juniper_message J H ctx) ctx.max_replies events w

  -- NokiaFsmCtrl
  unfoldable pub run_nokia : Globals → List (ℕ × Completion NokiaRequest) → World → Outcome
  run_nokia g events w =
      bind (nokia_fsm_ctrl g) λ ctx. run_fsm (handle_nokia_message J ctx) ctx.max_replies events w

  -- HuaweiFsmCtrl
  unfoldable pub run_huawei :
      HuaweiProtobuf → Globals → List (ℕ × Completion HuaweiRequest) → World → Outcome
  run_huawei P g events w =
      bind (huawei_fsm_ctrl g)
        λ ctx. run_fsm (handle_huawei_message J P ctx) ctx.max_replies events w

  -- What the functions of the four vendors have in common: the messages, the settings, the handler,
  -- and a context for every file that the handlers of the configuration accept.
  pub record FsmCtrl : Type 1 where
    pub Request : Type 0
    pub keys : VendorKeys
    pub context : Globals → Partial Context
    pub hands : (ctx : Context) → Hands J ctx Request
    pub run : Globals → List (ℕ × Completion Request) → World → Outcome
    pub run_lem :
        (g : Globals) (events : List (ℕ × Completion Request)) (w : World)
        → run g events w
          ≡ bind (context g) λ ctx. run_fsm (hands ctx).handler ctx.max_replies events w
    pub context_total :
        (cfg : Config) (machine : Machine) (uri : String) (replies : ℤ)
        → options_valid machine cfg ≡ true
        → (socket_value cfg keys == "") ≡ false
        → stoi (codes (effective cfg keys.replies "0")) ≡ done replies
        → ContextFor cfg replies (context (options_of uri cfg))

  pub run_cisco_lem :
      (P : Protobuf (Telemetry J.Real)) (g : Globals) (events : List (ℕ × Completion CiscoRequest))
      (w : World)
      → run_cisco P g events w
        ≡ bind
            (cisco_fsm_ctrl g)
            λ ctx. run_fsm (cisco_hands J ctx P).handler ctx.max_replies events w
  unfolding run_cisco
  run_cisco_lem P g events w = refl

  abbrev pub cisco_ctrl : Protobuf (Telemetry J.Real) → FsmCtrl
  cisco_ctrl P = record {
    Request = CiscoRequest;
    keys = cisco_keys;
    context = cisco_fsm_ctrl;
    hands = λ ctx. cisco_hands J ctx P;
    run = run_cisco P;
    run_lem = run_cisco_lem P;
    context_total = λ cfg machine uri replies. cisco_fsm_ctrl_total cfg machine uri;
  }

  pub run_juniper_lem :
      (H : HeaderExtension) (g : Globals) (events : List (ℕ × Completion (JuniperRequest J.Real)))
      (w : World)
      → run_juniper H g events w
        ≡ bind
            (juniper_fsm_ctrl g)
            λ ctx. run_fsm (juniper_hands J ctx H).handler ctx.max_replies events w
  unfolding run_juniper
  run_juniper_lem H g events w = refl

  abbrev pub juniper_ctrl : HeaderExtension → FsmCtrl
  juniper_ctrl H = record {
    Request = JuniperRequest J.Real;
    keys = juniper_keys;
    context = juniper_fsm_ctrl;
    hands = λ ctx. juniper_hands J ctx H;
    run = run_juniper H;
    run_lem = run_juniper_lem H;
    context_total = λ cfg machine uri replies. juniper_fsm_ctrl_total cfg machine uri;
  }

  pub run_nokia_lem :
      (g : Globals) (events : List (ℕ × Completion NokiaRequest)) (w : World)
      → run_nokia g events w
        ≡ bind
            (nokia_fsm_ctrl g)
            λ ctx. run_fsm (nokia_hands J ctx).handler ctx.max_replies events w
  unfolding run_nokia
  run_nokia_lem g events w = refl

  abbrev pub nokia_ctrl : FsmCtrl
  nokia_ctrl = record {
    Request = NokiaRequest;
    keys = nokia_keys;
    context = nokia_fsm_ctrl;
    hands = λ ctx. nokia_hands J ctx;
    run = run_nokia;
    run_lem = run_nokia_lem;
    context_total = λ cfg machine uri replies. nokia_fsm_ctrl_total cfg machine uri;
  }

  pub run_huawei_lem :
      (P : HuaweiProtobuf) (g : Globals) (events : List (ℕ × Completion HuaweiRequest)) (w : World)
      → run_huawei P g events w
        ≡ bind
            (huawei_fsm_ctrl g)
            λ ctx. run_fsm (huawei_hands J ctx P).handler ctx.max_replies events w
  unfolding run_huawei
  run_huawei_lem P g events w = refl

  abbrev pub huawei_ctrl : HuaweiProtobuf → FsmCtrl
  huawei_ctrl P = record {
    Request = HuaweiRequest;
    keys = huawei_keys;
    context = huawei_fsm_ctrl;
    hands = λ ctx. huawei_hands J ctx P;
    run = run_huawei P;
    run_lem = run_huawei_lem P;
    context_total = λ cfg machine uri replies. huawei_fsm_ctrl_total cfg machine uri;
  }
