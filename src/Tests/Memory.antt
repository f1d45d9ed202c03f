-- ===== src/Tests/Memory.antt =====
-- The blocks of the bridge at concrete settings.
use mdt_dialout_collector.Common.{
  ℕ, suc, Bool, true, false, none, some, List, [], ◌∷◌, ◌++◌, ◌≡◌, refl, done, thrown, out_of_range,
  inl, inr, replicate, if◌then◌else◌,
}
use text.Mathlib.Text.{◌==◌}
use mdt_dialout_collector.Config.Params.{find, emplace, value_at}
use mdt_dialout_collector.Config.Load.{string, Config, exists, effective}
use mdt_dialout_collector.Config.Main.Workers.{socket_value, workers_params}
use mdt_dialout_collector.Config.Main.Accepts.{main_params}
use mdt_dialout_collector.Config.Main.Reads.{main_params-MainReads}
use mdt_dialout_collector.Startup.Options.{options_of}
use mdt_dialout_collector.Startup.Bridge.Memory.{
  malloc, copy_members, init_options_block, init_payload_block,
}
use mdt_dialout_collector.Startup.Bridge.Memory.Frees.{GivesBack, init_options_block-GivesBack}
use mdt_dialout_collector.Startup.Bridge.Memory.Leaks.{init_options_block_leaks}
use mdt_dialout_collector.Startup.Bridge.Memory.Payloads.{IsWhole, init_payload_block-IsWhole}
use mdt_dialout_collector.Tests.Configuration.{file}

-- A file with a socket for each vendor.
abbrev four_sockets : Config
four_sockets key =
    if key == "socket_juniper"
    then string "0.0.0.0:10008"
    else if key == "socket_nokia"
    then string "0.0.0.0:10009"
    else if key == "socket_huawei"
    then string "0.0.0.0:10010"
    else file key

-- There is no memory for the members behind the sixth.
abbrev some_memory : List Bool
some_memory = replicate 7 true

-- InitOptions returns for it.
four_sockets_fit :
    (init_options_block (options_of "" four_sockets) some_memory (true ∷ [])).0
    ≡ done (record {
      self = 1;
      members = some 2 ∷ some 3 ∷ some 4 ∷ some 5 ∷ some 6 ∷ some 7 ∷ replicate 17 none;
    })
unfolding init_options_block copy_members malloc value_at find socket_value exists effective
    main_params emplace workers_params
four_sockets_fit = refl

init_options_block-GivesBack_example :
    GivesBack (true ∷ []) (init_options_block (options_of "" four_sockets) some_memory (true ∷ []))
init_options_block-GivesBack_example =
    init_options_block-GivesBack (options_of "" four_sockets) some_memory (true ∷ [])

init_options_block_leaks_example :
    (k : ℕ) × (init_options_block (options_of "" file) (true ∷ []) []
      ≡ (thrown out_of_range, [] ++ replicate (suc k) true))
unfolding socket_value exists effective
init_options_block_leaks_example =
    init_options_block_leaks file (options_of "" file) (true ∷ []) [] (main_params-MainReads file)
      (inr (inl refl)) refl

-- The fourth of the texts finds no memory.
init_payload_block-IsWhole_example :
    IsWhole
      (false ∷ [])
      (init_payload_block (true ∷ true ∷ true ∷ true ∷ false ∷ true ∷ true ∷ []) (false ∷ []))
init_payload_block-IsWhole_example =
    init_payload_block-IsWhole (true ∷ true ∷ true ∷ true ∷ false ∷ true ∷ true ∷ []) (false ∷ [])
