-- ===== src/Delivery.antt =====
-- How a message leaves the process: src/dataWrapper and src/dataDelivery.
pub mod Wrapper
pub mod Kafka
pub mod Zmq
