-- ===== src/Startup/Arguments.antt =====
-- main of the daemon, up to the handlers: its options, and ReadVersionFromFile.
use mdt_dialout_collector.Common.{
  ℕ, String, Bool, true, false, ◌&&◌, ◌||◌, Option, none, some, List, [], ◌∷◌, ltb, ◌==◌, ◌≡◌, refl,
  ◌∙◌, arith, if◌then◌else◌,
}
use mdt_dialout_collector.Common.Text.{Bytes, codes, is_empty, split_first}

-- What `getopt` reports: `-f` with its argument, `-V`, or an option that it does not know.
pub data Opt : Type 0 where
  config_option : String → Opt
  version_option : Opt
  unknown_option : Opt

-- What main does then.
pub data Choice : Type 0 where
  usage : Choice  -- it prints the usage and returns EXIT_FAILURE
  print_version : Choice  -- it returns EXIT_SUCCESS
  run_daemon : String → Choice

pub record Flags : Type 0 where
  pub cfg_path : String
  pub f_option_flag : Bool
  pub v_option_flag : Bool

-- the loop over the options; none is its early return
unfoldable pub read_flags : List Opt → Flags → Option Flags
read_flags [] flags = some flags
read_flags (config_option path ∷ opts) flags =
    read_flags opts (record flags { f_option_flag = true; cfg_path = path })
read_flags (version_option ∷ opts) flags = read_flags opts (record flags { v_option_flag = true })
read_flags (unknown_option ∷ opts) flags = none

abbrev pub no_flags : Flags
no_flags = record { cfg_path = ""; f_option_flag = false; v_option_flag = false }

abbrev pub default_cfg_path : String
default_cfg_path = "/etc/opt/mdt-dialout-collector/mdt_dialout_collector.conf"

-- the path of the installed file in place of the empty text
abbrev pub named : String → String
named path = if is_empty (codes path) then default_cfg_path else path

-- the checks behind the loop
abbrev pub choose : Flags → ℕ → Choice
choose flags argc =
    if (flags.f_option_flag && flags.v_option_flag) || ltb 3 argc
    then usage
    else if flags.v_option_flag && argc == 2
    then print_version
    else if flags.v_option_flag && ltb 2 argc
    then usage
    else run_daemon (named flags.cfg_path)

-- main, up to `LogsHandler`
unfoldable pub parse_arguments : List Opt → ℕ → Choice
unfolding read_flags
parse_arguments opts argc = elim (read_flags opts no_flags) [
  | none ↦ usage
  | some flags ↦ choose flags argc
]

-- ReadVersionFromFile, over the content of the file, none where it does not open
unfoldable pub read_version_from_file : Option Bytes → Bytes
read_version_from_file none = codes "UNKNOWN"
read_version_from_file (some text) = elim (split_first 10 text) [
  | none ↦ text
  | some (line, _) ↦ line
]

abbrev pub is_unknown : Opt → Bool
is_unknown unknown_option = true
is_unknown _ = false

abbrev pub is_version : Opt → Bool
is_version version_option = true
is_version _ = false

abbrev pub is_config : Opt → Bool
is_config (config_option _) = true
is_config _ = false

abbrev pub any : (Opt → Bool) → List Opt → Bool
any test [] = false
any test (opt ∷ opts) = test opt || any test opts

-- The argument of the last `-f`.
abbrev pub last_path : List Opt → String → String
last_path [] path = path
last_path (config_option path ∷ opts) _ = last_path opts path
last_path (version_option ∷ opts) path = last_path opts path
last_path (unknown_option ∷ opts) path = last_path opts path

read_flags_lem :
    (opts : List Opt) (flags : Flags)
    → read_flags opts flags ≡ (
        if any is_unknown opts
        then none
        else some (record {
          cfg_path = last_path opts flags.cfg_path;
          f_option_flag = flags.f_option_flag || any is_config opts;
          v_option_flag = flags.v_option_flag || any is_version opts;
        }))
unfolding read_flags
read_flags_lem [] flags = ground arith
read_flags_lem (config_option path ∷ opts) flags =
    read_flags_lem opts (record flags { f_option_flag = true; cfg_path = path }) ∙ ground arith
read_flags_lem (version_option ∷ opts) flags =
    read_flags_lem opts (record flags { v_option_flag = true }) ∙ ground arith
read_flags_lem (unknown_option ∷ opts) flags = refl

-- What main does with its options, whatever they are and in whatever order. It prints the usage
-- where one is unknown, where both -f and -V are there, and where there are more than three words;
-- with -V alone and two words it prints the version, and with more the usage. In all other cases it
-- runs the daemon with the argument of the last -f, and where there is none, or an empty one, with
-- the path of the installed file.
pub parse_arguments_lem :
    (opts : List Opt) (argc : ℕ)
    → parse_arguments opts argc ≡ (
        if any is_unknown opts
        then usage
        else if (any is_config opts && any is_version opts) || ltb 3 argc
        then usage
        else if any is_version opts
        then (if argc == 2
            then print_version
            else if ltb 2 argc
            then usage
            else run_daemon (named (last_path opts "")))
        else run_daemon (named (last_path opts "")))
unfolding parse_arguments
parse_arguments_lem opts argc = ground (arith, read_flags_lem opts no_flags)
