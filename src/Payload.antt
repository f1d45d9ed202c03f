-- ===== src/Payload.antt =====
-- src/dataManipulation/data_manipulation.cc: the JSON text that is made of a message.
pub mod Envelope
pub mod Cisco
pub mod Nokia
pub mod Huawei
pub mod Juniper
