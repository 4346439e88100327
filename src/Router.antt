-- ===== src/Router.antt =====
-- parachain/runtime/common/src/lib.rs: the router that gives a message to the channel of its id, and
-- the limits of the channels.
pub mod Fee
mod Tests
use polkadot_ethereum.Channels.Basic.Outbound as BasicOutbound
use polkadot_ethereum.Channels.Incentivized.Outbound as IncentivizedOutbound
use polkadot_ethereum.Core.{H160, AccountId, ChannelId, Bytes, ChannelId, ChannelId}
use polkadot_ethereum.Contracts.{OutboundRouter}
use polkadot_ethereum.Prelude.{ℕ}
use polkadot_ethereum.Frame.{Part, Dispatch, zoom}
use polkadot_ethereum.Channels.Basic.Outbound.{Outbound, Outbound, Outbound}

abbrev pub max_message_payload_size : ℕ
max_message_payload_size = 256

abbrev pub max_messages_per_commit : ℕ
max_messages_per_commit = 20

module _ {S : Type 0} (basic_part : Part S BasicOutbound.Outbound) (basic : BasicOutbound.Config)
    (incentivized : IncentivizedOutbound.Config S) where
  -- `OutboundRouter::submit`
  unfoldable pub route : ChannelId → AccountId → H160 → Bytes → Dispatch S
  route ChannelId.basic who target payload =
      zoom basic_part (BasicOutbound.submit basic who target payload)
  route ChannelId.incentivized who target payload =
      IncentivizedOutbound.submit incentivized who target payload

  abbrev pub router : OutboundRouter S
  router = record { submit = route }
