-- ===== src/Runtime/History.antt =====
-- The chain from its genesis on: blocks, extrinsics, messages from Ethereum, and XCM.
use polkadot_ethereum.Prelude.{ℕ, List, [], ◌∷◌}
use polkadot_ethereum.Frame.{◌>>◌, Dispatch, Origin, zoom}
use polkadot_ethereum.Channels.Basic.Outbound as BasicOutbound
use polkadot_ethereum.Channels.Incentivized.Outbound as IncentivizedOutbound
use polkadot_ethereum.Xcm.{Transactor, MultiAsset, deposit_asset, withdraw_asset}
use polkadot_ethereum.Runtime.{Constants, Chain, basic_outbound_part, incentivized_outbound_part}
use polkadot_ethereum.Runtime.Calls.{RuntimeCall, External}
use polkadot_ethereum.Runtime.Run.{basic_outbound_config, incentivized_outbound_config, execute}

-- What changes the chain: the start of a block, a call, a deposit or a withdrawal of an XCM message,
-- and the hooks of FRAME's pallets, which leave their storage as they like.
pub data Step (B O Location : Type 0) : Type 0 where
  initialize : ℕ → Step B O Location
  extrinsic : RuntimeCall O → Origin → Step B O Location
  xcm_deposit : MultiAsset → Location → Step B O Location
  xcm_withdraw : MultiAsset → Location → Step B O Location
  frame_hook : B → Step B O Location

module _ {B O : Type 0} (k : Constants) (x : External B O) where
  -- The hooks of the outbound channels, whose storages are apart.
  unfoldable pub on_initialize : ℕ → Dispatch (Chain B)
  on_initialize now =
      zoom basic_outbound_part (BasicOutbound.on_initialize (basic_outbound_config k x) now)
      >> zoom incentivized_outbound_part
          (IncentivizedOutbound.on_initialize (incentivized_outbound_config k x) now)

module _ {B O Location : Type 0} (k : Constants) (x : External B O) (t : Transactor Location) where
  unfoldable pub step : Step B O Location → Chain B → Chain B
  step (initialize now) s = (on_initialize k x now s).1
  step (extrinsic call origin) s = (execute k x call origin s).1
  step (xcm_deposit asset location) s = record s {
    assets = (deposit_asset t asset location s.assets).1;
  }
  step (xcm_withdraw asset location) s = record s {
    assets = (withdraw_asset t asset location s.assets).1;
  }
  step (frame_hook b) s = record s { frame = b }

  unfoldable pub steps : List (Step B O Location) → Chain B → Chain B
  steps [] s = s
  steps (first ∷ rest) s = steps rest (step first s)
