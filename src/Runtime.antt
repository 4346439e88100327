-- ===== src/Runtime.antt =====
-- parachain/runtime/rococo/src/lib.rs, with the constants of local and snowbridge: the storage of the
-- chain, and what the runtimes set for the pallets.
-- The pallets of FRAME and Cumulus are not part of the repository. `B` is the storage that they keep,
-- the balances of the native currency among it.
pub mod Calls
pub mod Run
pub mod Depth
pub mod Nested
pub mod Ether
pub mod Refused
pub mod Stranger
pub mod Kept
pub mod Sent
pub mod Apps
pub mod Nfts
pub mod Messages
pub mod Sound
pub mod History
pub mod Blocks
pub mod Reached
pub mod Relay
mod Tests
use polkadot_ethereum.Prelude.{ℕ, List, Bool, true, false, refl}
use polkadot_ethereum.Frame.{Part}
use polkadot_ethereum.Core.{H160, asset_eq}
use polkadot_ethereum.Ethereum.Difficulty.{DifficultyConfig, mainnet, ropsten}
use polkadot_ethereum.LightClient.{LightClient}
use polkadot_ethereum.Channels.Basic.Inbound as BasicInbound
use polkadot_ethereum.Channels.Basic.Outbound as BasicOutbound
use polkadot_ethereum.Channels.Incentivized.Inbound as IncentivizedInbound
use polkadot_ethereum.Channels.Incentivized.Outbound as IncentivizedOutbound
use polkadot_ethereum.Dispatch.{Event}
use polkadot_ethereum.Assets.{Assets}
use polkadot_ethereum.Nft.{Nft}
use polkadot_ethereum.Apps.Erc721.{TokensByErc721Id}

-- The constants in which the runtimes differ.
pub record Constants : Type 0 where
  pub descendants_until_finalized : ℕ
  pub difficulty_config : DifficultyConfig
  pub verify_pow : Bool
  pub decimals : ℕ

abbrev pub rococo : Constants
rococo = record {
  descendants_until_finalized = 3;
  difficulty_config = ropsten;
  verify_pow = true;
  decimals = 12;
}

abbrev pub snowbridge : Constants
snowbridge = record {
  descendants_until_finalized = 3;
  difficulty_config = mainnet;
  verify_pow = true;
  decimals = 10;
}

abbrev pub local : Constants
local = record {
  descendants_until_finalized = 1;
  difficulty_config = ropsten;
  verify_pow = false;
  decimals = 12;
}

-- `construct_runtime!`
pub record Chain (B : Type 0) : Type 0 where
  pub frame : B
  pub basic_inbound : BasicInbound.Inbound
  pub basic_outbound : BasicOutbound.Outbound
  pub incentivized_inbound : IncentivizedInbound.Inbound
  pub incentivized_outbound : IncentivizedOutbound.Outbound
  pub dispatch_events : List Event
  pub light_client : LightClient
  pub assets : Assets
  pub nft : Nft
  pub dot_app : H160
  pub eth_app : H160
  pub erc20_app : H160
  pub erc721_app : H160
  pub tokens_by_erc721_id : TokensByErc721Id

-- Where the storage of each pallet lies.
module _ {B : Type 0} where
  abbrev pub frame_part : Part (Chain B) B
  frame_part = record {
    get = λ s. s.frame;
    put = λ p s. record s { frame = p };
    get_put = λ p s. refl;
    put_get = λ s. refl;
  }

  abbrev pub basic_inbound_part : Part (Chain B) BasicInbound.Inbound
  basic_inbound_part = record {
    get = λ s. s.basic_inbound;
    put = λ p s. record s { basic_inbound = p };
    get_put = λ p s. refl;
    put_get = λ s. refl;
  }

  abbrev pub basic_outbound_part : Part (Chain B) BasicOutbound.Outbound
  basic_outbound_part = record {
    get = λ s. s.basic_outbound;
    put = λ p s. record s { basic_outbound = p };
    get_put = λ p s. refl;
    put_get = λ s. refl;
  }

  abbrev pub incentivized_inbound_part : Part (Chain B) IncentivizedInbound.Inbound
  incentivized_inbound_part = record {
    get = λ s. s.incentivized_inbound;
    put = λ p s. record s { incentivized_inbound = p };
    get_put = λ p s. refl;
    put_get = λ s. refl;
  }

  abbrev pub incentivized_outbound_part : Part (Chain B) IncentivizedOutbound.Outbound
  incentivized_outbound_part = record {
    get = λ s. s.incentivized_outbound;
    put = λ p s. record s { incentivized_outbound = p };
    get_put = λ p s. refl;
    put_get = λ s. refl;
  }

  abbrev pub dispatch_events_part : Part (Chain B) (List Event)
  dispatch_events_part = record {
    get = λ s. s.dispatch_events;
    put = λ p s. record s { dispatch_events = p };
    get_put = λ p s. refl;
    put_get = λ s. refl;
  }

  abbrev pub light_client_part : Part (Chain B) LightClient
  light_client_part = record {
    get = λ s. s.light_client;
    put = λ p s. record s { light_client = p };
    get_put = λ p s. refl;
    put_get = λ s. refl;
  }

  abbrev pub assets_part : Part (Chain B) Assets
  assets_part = record {
    get = λ s. s.assets;
    put = λ p s. record s { assets = p };
    get_put = λ p s. refl;
    put_get = λ s. refl;
  }

  abbrev pub nft_part : Part (Chain B) Nft
  nft_part = record {
    get = λ s. s.nft;
    put = λ p s. record s { nft = p };
    get_put = λ p s. refl;
    put_get = λ s. refl;
  }

  abbrev pub dot_app_part : Part (Chain B) H160
  dot_app_part = record {
    get = λ s. s.dot_app;
    put = λ p s. record s { dot_app = p };
    get_put = λ p s. refl;
    put_get = λ s. refl;
  }

  abbrev pub eth_app_part : Part (Chain B) H160
  eth_app_part = record {
    get = λ s. s.eth_app;
    put = λ p s. record s { eth_app = p };
    get_put = λ p s. refl;
    put_get = λ s. refl;
  }

  abbrev pub erc20_app_part : Part (Chain B) H160
  erc20_app_part = record {
    get = λ s. s.erc20_app;
    put = λ p s. record s { erc20_app = p };
    get_put = λ p s. refl;
    put_get = λ s. refl;
  }

  abbrev pub erc721_app_part : Part (Chain B) H160
  erc721_app_part = record {
    get = λ s. s.erc721_app;
    put = λ p s. record s { erc721_app = p };
    get_put = λ p s. refl;
    put_get = λ s. refl;
  }

  abbrev pub tokens_by_erc721_id_part : Part (Chain B) TokensByErc721Id
  tokens_by_erc721_id_part = record {
    get = λ s. s.tokens_by_erc721_id;
    put = λ p s. record s { tokens_by_erc721_id = p };
    get_put = λ p s. refl;
    put_get = λ s. refl;
  }
