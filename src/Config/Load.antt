-- ===== src/Config/Load.antt =====
-- The loaders of single settings (the anonymous namespace of cfg_handler.cc), and what each
-- leaves in the map.
use text.Mathlib.Text.{◌==◌}
use mdt_dialout_collector.Common.{
  String, Bool, true, false, not, ◌&&◌, ◌||◌, Option, List, [], ◌∷◌, ◌≡◌, arith, setting_not_found,
  if◌then◌else◌,
}
use mdt_dialout_collector.Config.Params.{
  Params, emplace, Load, accepted, rejected, threw, ◌>>=◌, accept_if,
}

-- A setting of a parsed file as `exists` and the conversion of `lookup` to a string show it: not
-- there, a string, or of another type, where the conversion throws a SettingTypeException.
pub data Setting : Type 0 where
  absent other : Setting
  string : String → Setting

-- `libconfig::Config` after `readFile`
abbrev pub Config : Type 0
Config = String → Setting

-- What the handlers ask of the machine: `readFile`, which gives no file on a FileIOException or a
-- ParseException, and `std::filesystem::exists`.
pub record Machine : Type 0 where
  pub read_file : String → Option Config
  pub file_exists : String → Bool

-- `cfg.exists(key)`
unfoldable pub exists : Config → String → Bool
exists cfg key = elim (cfg key) [ absent ↦ false | _ ↦ true ]

-- `(const char *)cfg.lookup(key)` where a SettingTypeException makes the handler return false
unfoldable pub lookup : Config → String → Load String
lookup cfg key = elim (cfg key) [
  | absent ↦ threw setting_not_found
  | other ↦ rejected
  | string value ↦ accepted value
]

-- ReadStringSetting; `out` is the value that an absent key leaves
unfoldable pub read_string_setting : Config → String → String → Load String
unfolding exists lookup
read_string_setting cfg key out = if not (exists cfg key) then accepted out else lookup cfg key

-- LoadOptional
unfoldable pub load_optional : Config → Params → String → String → Load Params
unfolding read_string_setting
load_optional cfg params key default_value = do
  value ← read_string_setting cfg key ""
  if exists cfg key
      then if value == "" then rejected else accepted (emplace key value params)
      else accepted (emplace key default_value params)

-- the loop `for (const char *a : allowed)`
unfoldable pub is_allowed : String → List String → Bool
is_allowed value [] = false
is_allowed value (a ∷ allowed) = value == a || is_allowed value allowed

-- LoadOptionalEnum
unfoldable pub load_optional_enum : Config → Params → String → String → List String → Load Params
unfolding read_string_setting
load_optional_enum cfg params key default_value allowed = do
  value ← read_string_setting cfg key ""
  if exists cfg key
      then if not (is_allowed value allowed) then rejected else accepted (emplace key value params)
      else accepted (emplace key default_value params)

-- LoadMandatory
unfoldable pub load_mandatory : Config → Params → String → Load Params
unfolding read_string_setting
load_mandatory cfg params key = if not (exists cfg key) then rejected else (do
  value ← read_string_setting cfg key ""
  if value == "" then rejected else accepted (emplace key value params))

-- LoadOptionalPath
unfoldable pub load_optional_path : Machine → Config → Params → String → String → Load Params
unfolding read_string_setting
load_optional_path machine cfg params key default_value = do
  value ← read_string_setting cfg key ""
  let chosen = if exists cfg key then value else default_value
  if chosen == "" || not (machine.file_exists chosen)
      then rejected
      else accepted (emplace key chosen params)

-- The value that a setting stands for: its text, or the default where it is absent.
unfoldable pub effective : Config → String → String → String
effective cfg key default_value = elim (cfg key) [ string value ↦ value | _ ↦ default_value ]

-- Whether a setting can be read: absent, or a text that passes a test.
unfoldable pub admits : (String → Bool) → Config → String → Bool
admits test cfg key = elim (cfg key) [ absent ↦ true | other ↦ false | string value ↦ test value ]

-- The tests of the loaders, on the text of a setting.
abbrev pub nonempty : String → Bool
nonempty value = not (value == "")

pub load_optional_lem :
    (cfg : Config) (params : Params) (key default_value : String)
    → load_optional cfg params key default_value
      ≡ accept_if (admits nonempty cfg key) (emplace key (effective cfg key default_value) params)
unfolding load_optional effective admits
load_optional_lem cfg params key default_value = ground arith

pub load_optional_enum_lem :
    (cfg : Config) (params : Params) (key default_value : String) (allowed : List String)
    → load_optional_enum cfg params key default_value allowed
      ≡ accept_if
          (admits (λ value. is_allowed value allowed) cfg key)
          (emplace key (effective cfg key default_value) params)
unfolding load_optional_enum effective admits
load_optional_enum_lem cfg params key default_value allowed = ground arith

pub load_mandatory_lem :
    (cfg : Config) (params : Params) (key : String)
    → load_mandatory cfg params key
      ≡ accept_if
          (exists cfg key && admits nonempty cfg key)
          (emplace key (effective cfg key "") params)
unfolding load_mandatory effective admits
load_mandatory_lem cfg params key = ground arith

-- A path is accepted where the setting is readable and its value, given or by default, names a
-- file that is there.
abbrev pub names_file : Machine → String → Bool
names_file machine value = nonempty value && machine.file_exists value

unfoldable pub admits_path : Machine → Config → String → String → Bool
admits_path machine cfg key default_value = elim (cfg key) [
  | absent ↦ names_file machine default_value
  | other ↦ false
  | string value ↦ names_file machine value
]

pub load_optional_path_lem :
    (machine : Machine) (cfg : Config) (params : Params) (key default_value : String)
    → load_optional_path machine cfg params key default_value
      ≡ accept_if
          (admits_path machine cfg key default_value)
          (emplace key (effective cfg key default_value) params)
unfolding load_optional_path effective admits_path
load_optional_path_lem machine cfg params key default_value = ground arith
