-- ===== src/Channels/Basic.antt =====
-- parachain/pallets/basic-channel
pub mod Inbound
pub mod Outbound
mod Tests
