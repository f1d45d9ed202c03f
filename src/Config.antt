-- ===== src/Config.antt =====
-- src/utils/cfg_handler.cc: the configuration handlers over libconfig.
pub mod Params
pub mod Load
pub mod Logs
pub mod Main
pub mod DataManipulation
pub mod Kafka
pub mod Zmq
