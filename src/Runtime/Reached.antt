-- ===== src/Runtime/Reached.antt =====
-- What holds on the chain from its genesis on.
use polkadot_ethereum.Prelude.{List, [], ◌∷◌, ◌≡◌, refl, arith, subst, sym}
use polkadot_ethereum.Prelude.Word.{u128_mod}
use polkadot_ethereum.Frame.{ok}
use polkadot_ethereum.Core.{AccountId, AssetId, Bytes, Erc721TokenData, U256}
use polkadot_ethereum.Assets.Calls.{build}
use polkadot_ethereum.Assets.Configured.{Distinct, build-IsSound}
use polkadot_ethereum.Assets.Configured as Configured
use polkadot_ethereum.Assets.Sound.{IsSound}
use polkadot_ethereum.Nft.Owners.{IsIndexed}
use polkadot_ethereum.Nft.Genesis as NftGenesis
use polkadot_ethereum.Nft.Genesis.{build_tokens-IsIndexed}
use polkadot_ethereum.Channels.Basic.Outbound as BasicOutbound
use polkadot_ethereum.Channels.Incentivized.Outbound as IncentivizedOutbound
use polkadot_ethereum.Xcm.{Transactor}
use polkadot_ethereum.Channels.Basic.Outbound.Order as BasicOrder
use polkadot_ethereum.Channels.Incentivized.Outbound.Order as IncentivizedOrder
use polkadot_ethereum.Xcm.Sound.{transact-IsSound}
use polkadot_ethereum.Runtime.{Constants, Chain}
use polkadot_ethereum.Runtime.Calls.{External}
use polkadot_ethereum.Runtime.Run.{basic_outbound_config, incentivized_outbound_config}
use polkadot_ethereum.Runtime.Kept.{Kept, assets-Kept, same-Kept}
use polkadot_ethereum.Runtime.Sound.{depth-KeptCall}
use polkadot_ethereum.Runtime.History.{
  Step, initialize, extrinsic, xcm_deposit, xcm_withdraw, frame_hook, step, steps,
}
use polkadot_ethereum.Runtime.Blocks.{initialize-Kept}

module _ {B O Location : Type 0} (k : Constants) (x : External B O) (t : Transactor Location) where
  module _ (start : Chain B) where
    step-Kept :
        (action : Step B O Location) (s : Chain B)
        → Kept k x start s
        → Kept k x start (step k x t action s)
    unfolding step
    step-Kept (initialize now) s h = initialize-Kept k x start now s h
    step-Kept (extrinsic call origin) s h = (depth-KeptCall k x start 1).kept call origin s h
    step-Kept (xcm_deposit asset location) s h =
        assets-Kept _ s (transact-IsSound t asset location s.assets h.sound).0 h
    step-Kept (xcm_withdraw asset location) s h =
        assets-Kept _ s (transact-IsSound t asset location s.assets h.sound).1 h
    step-Kept (frame_hook b) s h = same-Kept s _ (refl, refl, refl, refl, refl) h

    steps_from-Kept :
        (actions : List (Step B O Location)) (s : Chain B)
        → Kept k x start s
        → Kept k x start (steps k x t actions s)
    unfolding steps
    steps_from-Kept [] s h = h
    steps_from-Kept (first ∷ rest) s h =
        steps_from-Kept rest (step k x t first s) (step-Kept first s h)

-- A chain at its genesis, with the given balances and tokens.
pub record IsGenesis {B : Type 0} (entries : List (AssetId × AccountId × U256))
    (tokens : List (AccountId × Bytes × Erc721TokenData)) (start : Chain B) : Type 0 where
  pub assets : start.assets ≡ (build entries Configured.nothing).1
  pub nft : start.nft ≡ (NftGenesis.build u128_mod tokens NftGenesis.nothing).1
  pub basic :
      start.basic_outbound
      ≡ record start.basic_outbound { message_queue = []; nonce = 0; offchain = [] }
  pub incentivized :
      start.incentivized_outbound
      ≡ record start.incentivized_outbound { message_queue = []; nonce = 0; offchain = [] }

module _ {B O : Type 0} (k : Constants) (x : External B O) where
  empty_basic :
      (o : BasicOutbound.Outbound)
      → BasicOrder.IsOutbound
          (basic_outbound_config k x)
          0
          (record o { message_queue = []; nonce = 0; offchain = [] })
  empty_basic o = record {
    numbered = refl;
    queue_fits = omega arith;
    payloads_fit = tt;
    nonce_fits = omega arith;
  }

  empty_incentivized :
      (o : IncentivizedOutbound.Outbound)
      → IncentivizedOrder.IsOutbound
          (incentivized_outbound_config k x)
          0
          (record o { message_queue = []; nonce = 0; offchain = [] })
  empty_incentivized o = record {
    numbered = refl;
    queue_fits = omega arith;
    payloads_fit = tt;
    nonce_fits = omega arith;
  }

-- On a chain whose genesis lists no account twice for one asset and overflows no sum, and whose outbound
-- channels begin empty, after any blocks, hooks of FRAME, calls of any origin, messages from Ethereum
-- and XCM deposits and withdrawals: the total issuance of every asset is the sum of its balances and within 256 bits; the index of owners lists exactly the
-- tokens; on each outbound channel, the messages that have been committed or are queued bear the nonces
-- from 1 on, none missing and none twice, at most 20 of them are queued, and no queued payload is longer
-- than 256 bytes; the fee of the incentivized channel and the principal of the basic one are those of
-- the genesis, since no call changes them; and an ERC721 token of Ethereum for which the genesis records
-- the id of the one NFT with its properties, or records none and has no such NFT, is so recorded ever
-- after, so that it never has two NFTs.
pub steps-Kept :
    {B O Location : Type 0} (k : Constants) (x : External B O) (t : Transactor Location)
    (actions : List (Step B O Location)) (start : Chain B)
    (entries : List (AssetId × AccountId × U256))
    (tokens : List (AccountId × Bytes × Erc721TokenData))
    → Distinct entries
    → (build entries Configured.nothing).0 ≡ ok tt
    → IsGenesis entries tokens start
    → Kept k x start (steps k x t actions start)
steps-Kept k x t actions start entries tokens distinct done genesis =
    steps_from-Kept k x t start actions start (record {
      sound = subst IsSound (sym genesis.assets) (build-IsSound entries distinct done);
      indexed =
          subst (IsIndexed u128_mod) (sym genesis.nft)
            (build_tokens-IsIndexed u128_mod tokens (omega arith));
      basic =
          subst (BasicOrder.IsOutbound (basic_outbound_config k x) 0) (sym genesis.basic)
            (empty_basic k x start.basic_outbound);
      incentivized =
          subst (IncentivizedOrder.IsOutbound (incentivized_outbound_config k x) 0)
            (sym genesis.incentivized) (empty_incentivized k x start.incentivized_outbound);
      charged = refl;
      trusted = refl;
      registered = λ key r. r;
    })
