-- ===== src/Delivery/Kafka.antt =====
-- src/dataDelivery/kafka_delivery.cc: the producer's settings, and the records that it is given.
use mdt_dialout_collector.Common.{
  String, Bool, true, false, List, [], ◌∷◌, ◌++◌, if◌then◌else◌, Partial, done, bind,
}
use mdt_dialout_collector.Common.Text.{Bytes, is_empty}
use mdt_dialout_collector.Config.Params.{Params, value_at}

pub record KafkaDelivery : Type 0 where
  pub topic : String
  pub bootstrap_servers : String
  pub enable_idempotence : String
  pub client_id : String
  pub security_protocol : String
  pub ssl_key_location : String
  pub ssl_key_password : String
  pub ssl_certificate_location : String
  pub ssl_ca_location : String
  pub enable_ssl_certificate_verification : String
  pub log_level : String

-- set_kafka_properties, which puts the properties in a map under these keys
abbrev pub kafka_properties : KafkaDelivery → Params
kafka_properties k =
    ("bootstrap.servers", k.bootstrap_servers)
    ∷ ("enable.idempotence", k.enable_idempotence)
    ∷ ("client.id", k.client_id)
    ∷ ("security.protocol", k.security_protocol)
    ∷ ("ssl.key.location", k.ssl_key_location)
    ∷ ("ssl.key.password", k.ssl_key_password)
    ∷ ("ssl.certificate.location", k.ssl_certificate_location)
    ∷ ("ssl.ca.location", k.ssl_ca_location)
    ∷ ("enable.ssl.certificate.verification", k.enable_ssl_certificate_verification)
    ∷ ("log_level", k.log_level)
    ∷ []

-- the constructor, from the global `kafka_delivery_cfg_parameters`
unfoldable pub kafka_delivery : Params → Partial KafkaDelivery
unfolding value_at
kafka_delivery cfg = bind (value_at cfg "topic") λ topic.
    bind (value_at cfg "bootstrap_servers") λ bootstrap_servers.
      bind (value_at cfg "enable_idempotence") λ enable_idempotence.
        bind (value_at cfg "client_id") λ client_id.
          bind (value_at cfg "security_protocol") λ security_protocol.
            bind (value_at cfg "ssl_key_location") λ ssl_key_location.
              bind (value_at cfg "ssl_key_password") λ ssl_key_password.
                bind (value_at cfg "ssl_certificate_location") λ ssl_certificate_location.
                  bind (value_at cfg "ssl_ca_location") λ ssl_ca_location.
                    bind (value_at cfg "enable_ssl_certificate_verification") λ verification.
                      bind (value_at cfg "log_level") λ log_level. done (record {
                        topic = topic;
                        bootstrap_servers = bootstrap_servers;
                        enable_idempotence = enable_idempotence;
                        client_id = client_id;
                        security_protocol = security_protocol;
                        ssl_key_location = ssl_key_location;
                        ssl_key_password = ssl_key_password;
                        ssl_certificate_location = ssl_certificate_location;
                        ssl_ca_location = ssl_ca_location;
                        enable_ssl_certificate_verification = verification;
                        log_level = log_level;
                      })

-- A record that the producer has taken.
pub record ProducerRecord : Type 0 where
  pub topic : String
  pub key : Bytes
  pub value : Bytes

-- AsyncKafkaProducer; `accepts` is whether `send` returns without a KafkaException
unfoldable pub async_kafka_producer :
    KafkaDelivery → Bool → Bytes → Bytes → List ProducerRecord → Bool × List ProducerRecord
async_kafka_producer k accepts peer json_str out =
    if is_empty json_str
    then (false, out)
    else if accepts
    then (true, out ++ (record { topic = k.topic; key = peer; value = json_str } ∷ []))
    else (false, out)
