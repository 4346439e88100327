-- ===== src/Channels.antt =====
-- The four channel pallets: parachain/pallets/basic-channel and incentivized-channel, each with an
-- inbound and an outbound side, and what they share with `ethabi`.
pub mod Journal
pub mod Numbered
pub mod Basic
pub mod Incentivized
