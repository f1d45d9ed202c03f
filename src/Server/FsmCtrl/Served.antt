-- ===== src/Server/FsmCtrl/Served.antt =====
-- What a vendor's server publishes, from the configuration file to the records of Kafka.
use mdt_dialout_collector.Config.Load.{Config}
use mdt_dialout_collector.Server.FsmCtrl.{FsmCtrl}
