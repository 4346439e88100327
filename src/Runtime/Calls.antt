-- ===== src/Runtime/Calls.antt =====
-- The calls of the chain, and what the runtime takes from outside the repository.
use polkadot_ethereum.Prelude.{ℕ, List, Option}
use polkadot_ethereum.Frame.{Origin, Dispatch}
use polkadot_ethereum.Core.{
  AccountId, AssetId, Bytes, ChannelId, H160, H256, Message, U256, asset_eq,
}
use polkadot_ethereum.Contracts.{Token}
use polkadot_ethereum.Ethereum.{Header, Log}
use polkadot_ethereum.Ethereum.{Codec}
use polkadot_ethereum.Ethereum.Ethash.{EthashCrate}
use polkadot_ethereum.LightClient.{EthashProofData}
use polkadot_ethereum.Channels.Incentivized.Inbound as IncentivizedInbound
use polkadot_ethereum.Contracts.{Tokens}
use polkadot_ethereum.Prelude.{Bool, String}

-- `Call`: the calls of the repository's pallets, the calls of FRAME's pallets that hold no call and keep
-- to the storage of FRAME, and those that run a list of calls (`utility`, `sudo`, the council). The
-- outbound channels are in `construct_runtime!` without `Call`, so `set_principal` and `set_fee` are no
-- calls of the chain.
mutual
  pub data RuntimeCall (O : Type 0) : Type 0 where
    basic_inbound_submit : Message → RuntimeCall O
    incentivized_inbound_submit : Message → RuntimeCall O
    incentivized_inbound_set_reward_fraction : ℕ → RuntimeCall O
    light_client_import_header : Header → List EthashProofData → RuntimeCall O
    assets_transfer : AssetId → ℕ → U256 → RuntimeCall O
    dot_lock : ChannelId → H160 → ℕ → RuntimeCall O
    dot_unlock : H160 → ℕ → U256 → RuntimeCall O
    eth_burn : ChannelId → H160 → U256 → RuntimeCall O
    eth_mint : H160 → ℕ → U256 → RuntimeCall O
    erc20_burn : ChannelId → H160 → H160 → U256 → RuntimeCall O
    erc20_mint : H160 → H160 → ℕ → U256 → RuntimeCall O
    erc721_burn : ChannelId → ℕ → H160 → RuntimeCall O
    erc721_mint : H160 → ℕ → H160 → U256 → Bytes → RuntimeCall O
    frame_call : O → RuntimeCall O
    nested : O → RuntimeCalls O → RuntimeCall O

  pub data RuntimeCalls (O : Type 0) : Type 0 where
    no_calls : RuntimeCalls O
    and_call : RuntimeCall O → RuntimeCalls O → RuntimeCalls O

-- The codecs, the accounts and the calls of FRAME. A call of FRAME that holds others refuses or chooses
-- the origin that they are given, runs them one after the other up to the first that fails, and then
-- keeps what they have changed, as `batch` does, or takes it back, as `batch_all`.
pub record External (B O : Type 0) : Type 0 where
  pub codec : Codec
  pub crate : EthashCrate
  pub cross_boundary : U256 → U256
  pub decode_basic_event : Log → Option (List Token)
  pub decode_incentivized_event : Log → Option (List Token)
  pub decode_call : Bytes → Option (RuntimeCall O)
  pub lookup_account : ℕ → Option AccountId
  pub encode_account : AccountId → Bytes
  pub encode_function : String → List Token → Bytes
  pub abi_encode : Tokens → Bytes
  pub keccak_256 : Bytes → H256
  pub key_of : ChannelId → H256 → Bytes
  -- `EnsureRootOrHalfLocalCouncil`
  pub root_or_half_council : Origin → Bool
  pub mul_ceil : ℕ → ℕ → ℕ
  -- `Balances`
  pub currency : IncentivizedInbound.Currency B
  pub transfer_allow_death : AccountId → AccountId → ℕ → Dispatch B
  pub transfer_keep_alive : AccountId → AccountId → ℕ → Dispatch B
  pub dot_account : AccountId
  pub treasury_account : AccountId
  pub run_frame_call : O → Origin → Dispatch B
  pub origin_of_nested : O → Origin → B → Option Origin
  pub all_or_nothing : O → Bool
