-- ===== src/Config/Kafka/Accepts.antt =====
-- Which files the Kafka handler accepts, and the map that it fills.
use text.Mathlib.Text.{◌==◌}
use mdt_dialout_collector.Common.{
  String, Bool, true, not, ◌&&◌, ◌||◌, none, some, [], ◌∷◌, ◌≡◌, ◌∙◌, arith, if◌then◌else◌,
  Option-cases, inl, inr,
}
use mdt_dialout_collector.Config.Params.{
  Params, find, emplace, at, rejected, ◌>>=◌, accept_if, accept_if-then,
}
use mdt_dialout_collector.Config.Load.{
  Config, Machine, exists, is_allowed, effective, admits, nonempty, load_optional_lem,
  load_optional_enum_lem, load_mandatory_lem,
}
use mdt_dialout_collector.Config.Logs.{set_parameters}
use mdt_dialout_collector.Config.Kafka.{
  load_kafka_only, load_ssl, load_common, load_security, lookup_kafka_parameters,
}

-- A key that kafka mode makes mandatory.
abbrev pub admits_kafka_only : Bool → Config → String → Bool
admits_kafka_only kafka_mode kp key = admits nonempty kp key && (exists kp key || not kafka_mode)

load_kafka_only_lem :
    (kafka_mode : Bool) (kp : Config) (params : Params) (key dummy : String)
    → load_kafka_only kafka_mode kp params key dummy
      ≡ accept_if
          (admits_kafka_only kafka_mode kp key)
          (emplace key (effective kp key dummy) params)
unfolding load_kafka_only exists admits effective
load_kafka_only_lem kafka_mode kp params key dummy =
    rw load_mandatory_lem (unfold load_kafka_only exists admits effective in ground arith)

abbrev pub protocol : Config → String
protocol kp = effective kp "security_protocol" "dummy_security_protocol"

abbrev pub ssl_valid : Config → Bool
ssl_valid kp =
    exists kp "ssl_key_location"
    && admits nonempty kp "ssl_key_location"
    && exists kp "ssl_certificate_location"
    && admits nonempty kp "ssl_certificate_location"
    && exists kp "ssl_ca_location"
    && admits nonempty kp "ssl_ca_location"
    && admits nonempty kp "ssl_key_password"
    && admits nonempty kp "enable_ssl_certificate_verification"

abbrev common_valid : Bool → Config → Bool
common_valid kafka_mode kp =
    admits_kafka_only kafka_mode kp "topic"
    && admits_kafka_only kafka_mode kp "bootstrap_servers"
    && admits (λ v. is_allowed v ("true" ∷ "false" ∷ [])) kp "enable_idempotence"
    && admits nonempty kp "client_id"
    && admits nonempty kp "log_level"
    && admits_kafka_only kafka_mode kp "security_protocol"

abbrev security_valid : Config → Bool
security_valid kp =
    is_allowed (protocol kp) ("dummy_security_protocol" ∷ "ssl" ∷ "plaintext" ∷ [])
    && (if protocol kp == "ssl" then ssl_valid kp else true)

abbrev pub kafka_valid : Bool → Config → Bool
kafka_valid kafka_mode kp = common_valid kafka_mode kp && security_valid kp

abbrev common_params : Config → Params
common_params kp =
    ("security_protocol", protocol kp)
    ∷ ("log_level", effective kp "log_level" "6")
    ∷ ("client_id", effective kp "client_id" "mdt-dialout-collector")
    ∷ ("enable_idempotence", effective kp "enable_idempotence" "true")
    ∷ ("bootstrap_servers", effective kp "bootstrap_servers" "dummy_servers")
    ∷ ("topic", effective kp "topic" "dummy_topic")
    ∷ []

-- All eleven keys that KafkaDelivery reads are in the map.
abbrev pub kafka_params : Config → Params
kafka_params kp =
    if protocol kp == "ssl"
    then (
      "enable_ssl_certificate_verification",
      effective kp "enable_ssl_certificate_verification" "true",
    )
      ∷ ("ssl_key_password", effective kp "ssl_key_password" "NULL")
      ∷ ("ssl_ca_location", effective kp "ssl_ca_location" "")
      ∷ ("ssl_certificate_location", effective kp "ssl_certificate_location" "")
      ∷ ("ssl_key_location", effective kp "ssl_key_location" "")
      ∷ common_params kp
    else ("enable_ssl_certificate_verification", "false")
      ∷ ("ssl_ca_location", "NULL")
      ∷ ("ssl_certificate_location", "NULL")
      ∷ ("ssl_key_password", "NULL")
      ∷ ("ssl_key_location", "NULL")
      ∷ common_params kp

-- The six settings of the SSL branch behind those that are there.
abbrev ssl_params : Config → Params → Params
ssl_params kp params =
    emplace "enable_ssl_certificate_verification"
      (effective kp "enable_ssl_certificate_verification" "true")
      (emplace "ssl_key_password" (effective kp "ssl_key_password" "NULL") (
        emplace "ssl_ca_location" (effective kp "ssl_ca_location" "") (
          emplace "ssl_certificate_location" (effective kp "ssl_certificate_location" "")
            (emplace "ssl_key_location" (effective kp "ssl_key_location" "") params))))

load_ssl_lem :
    (kp : Config) (params : Params)
    → load_ssl kp params ≡ accept_if (ssl_valid kp) (ssl_params kp params)
unfolding load_ssl
load_ssl_lem kp params =
    simp (load_mandatory_lem, load_optional_lem)
      (unfold load_ssl exists admits effective in ground arith)

load_common_lem :
    (kafka_mode : Bool) (kp : Config)
    → load_common kafka_mode kp ≡ accept_if (common_valid kafka_mode kp) (common_params kp)
unfolding load_common emplace
load_common_lem kafka_mode kp =
    simp (load_optional_lem, load_optional_enum_lem, load_kafka_only_lem) (ground arith)

load_security_lem :
    (kp : Config)
    → load_security kp (common_params kp) ≡ accept_if (security_valid kp) (kafka_params kp)
unfolding load_security emplace at is_allowed
load_security_lem kp = simp load_ssl_lem (ground arith)

load_kafka_lem :
    (kafka_mode : Bool) (kp : Config)
    → (load_common kafka_mode kp >>= load_security kp)
      ≡ accept_if (kafka_valid kafka_mode kp) (kafka_params kp)
load_kafka_lem kafka_mode kp = rw (load_common_lem kafka_mode kp) (
    accept_if-then (common_valid kafka_mode kp) (security_valid kp) (common_params kp)
      (load_security kp) (kafka_params kp) (load_security_lem kp))

readable_file :
    (machine : Machine) (main_cfg : Params) (cfg_path : String) {method : String} {kp : Config}
    → find "data_delivery_method" main_cfg ≡ some method
    → machine.read_file cfg_path ≡ some kp
    → lookup_kafka_parameters machine main_cfg cfg_path
      ≡ (load_common (method == "kafka") kp >>= load_security kp)
unfolding lookup_kafka_parameters at set_parameters
readable_file machine main_cfg cfg_path h found = ground arith

-- Where the delivery method is known, the handler rejects an unreadable file. It accepts a file
-- exactly where each setting that it reads is admissible: topic, servers and protocol are
-- mandatory in kafka mode, the protocol is ssl, plaintext or the dummy, and with ssl the key, the
-- certificate and the CA are given. The map then holds the eleven keys, each with its text or its
-- default; verification is on with ssl unless the file says otherwise. It throws nothing.
pub lookup_kafka_parameters-accept_if :
    (machine : Machine) (main_cfg : Params) (cfg_path : String) {method : String}
    → find "data_delivery_method" main_cfg ≡ some method
    → lookup_kafka_parameters machine main_cfg cfg_path ≡ elim (machine.read_file cfg_path) [
      | none ↦ rejected
      | some kp ↦ accept_if (kafka_valid (method == "kafka") kp) (kafka_params kp)
    ]
unfolding lookup_kafka_parameters at set_parameters
lookup_kafka_parameters-accept_if machine main_cfg cfg_path {method} h =
    elim (Option-cases (machine.read_file cfg_path)) [
      | inl missing ↦ ground arith
      | inr (kp, found) ↦
          rw found (
            readable_file machine main_cfg cfg_path h found ∙ load_kafka_lem (method == "kafka") kp)
    ]
