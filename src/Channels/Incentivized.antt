-- ===== src/Channels/Incentivized.antt =====
-- parachain/pallets/incentivized-channel
pub mod Inbound
pub mod Outbound
mod Tests
