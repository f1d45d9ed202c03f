-- ===== src/Config/Kafka.antt =====
-- KafkaCfgHandler::lookup_kafka_parameters
pub mod Accepts
use text.Mathlib.Text.{◌==◌}
use mdt_dialout_collector.Common.{String, Bool, not, ◌&&◌, ◌||◌, [], ◌∷◌, if◌then◌else◌}
use mdt_dialout_collector.Config.Params.{Params, emplace, at, Load, accepted, rejected, ◌>>=◌}
use mdt_dialout_collector.Config.Load.{
  Config, Machine, exists, load_optional, load_optional_enum, load_mandatory,
}
use mdt_dialout_collector.Config.Logs.{set_parameters}

-- the lambda of that name: mandatory in kafka mode, a dummy otherwise
unfoldable pub load_kafka_only : Bool → Config → Params → String → String → Load Params
load_kafka_only kafka_mode kp params key dummy =
    if exists kp key || kafka_mode
    then load_mandatory kp params key
    else accepted (emplace key dummy params)

unfoldable pub load_ssl : Config → Params → Load Params
load_ssl kp params = do
  params ← load_mandatory kp params "ssl_key_location"
  params ← load_mandatory kp params "ssl_certificate_location"
  params ← load_mandatory kp params "ssl_ca_location"
  params ← load_optional kp params "ssl_key_password" "NULL"
  if exists kp "enable_ssl_certificate_verification"
      then load_optional kp params "enable_ssl_certificate_verification" "true"
      else accepted (emplace "enable_ssl_certificate_verification" "true" params)

abbrev pub without_ssl : Params → Params
without_ssl params = emplace "enable_ssl_certificate_verification" "false" (
    emplace "ssl_ca_location" "NULL" (
      emplace "ssl_certificate_location" "NULL"
        (emplace "ssl_key_password" "NULL" (emplace "ssl_key_location" "NULL" params))))

-- the keys that do not depend on the security protocol, and the protocol
unfoldable pub load_common : Bool → Config → Load Params
load_common kafka_mode kp = do
  params ← load_kafka_only kafka_mode kp [] "topic" "dummy_topic"
  params ← load_kafka_only kafka_mode kp params "bootstrap_servers" "dummy_servers"
  params ← load_optional_enum kp params "enable_idempotence" "true" ("true" ∷ "false" ∷ [])
  params ← load_optional kp params "client_id" "mdt-dialout-collector"
  params ← load_optional kp params "log_level" "6"
  load_kafka_only kafka_mode kp params "security_protocol" "dummy_security_protocol"

-- the checks of the protocol, and what goes with it
unfoldable pub load_security : Config → Params → Load Params
load_security kp params = do
  protocol ← at params "security_protocol"
  if not (protocol == "dummy_security_protocol")
        && not (protocol == "ssl")
        && not (protocol == "plaintext")
      then rejected
      else if not (protocol == "ssl")
      then accepted (without_ssl params)
      else load_ssl kp params

-- `main_cfg` is the global `main_cfg_parameters`
unfoldable pub lookup_kafka_parameters : Machine → Params → String → Load Params
unfolding set_parameters
lookup_kafka_parameters machine main_cfg cfg_path = do
  kp ← set_parameters machine cfg_path
  delivery ← at main_cfg "data_delivery_method"
  params ← load_common (delivery == "kafka") kp
  load_security kp params
