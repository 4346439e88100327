-- ===== src/Frame/Errors.antt =====
-- The error enumerations of the pallets, and the `DispatchError` that they convert into.
use polkadot_ethereum.Prelude.{String}

-- parachain/pallets/assets/src/lib.rs
pub data AssetsError : Type 0 where
  total_issuance_overflow total_issuance_underflow balance_overflow insufficient_balance :
      AssetsError

-- parachain/pallets/nft/src/lib.rs
pub data NftError : Type 0 where
  no_available_token_id token_not_found no_permission num_overflow : NftError

-- parachain/pallets/ethereum-light-client/src/lib.rs
pub data LightClientError : Type 0 where
  ancient_header missing_header missing_parent_header duplicate_header header_not_finalized
        header_on_stale_fork invalid_header invalid_proof unknown :
      LightClientError

-- parachain/pallets/basic-channel/src/inbound/mod.rs, and the same enumeration in
-- parachain/pallets/incentivized-channel/src/inbound/mod.rs
pub data InboundError : Type 0 where
  invalid_source_channel invalid_envelope invalid_nonce : InboundError

-- parachain/pallets/basic-channel/src/outbound/mod.rs
pub data BasicOutboundError : Type 0 where
  payload_too_large queue_size_limit_reached overflow not_authorized : BasicOutboundError

-- parachain/pallets/incentivized-channel/src/outbound/mod.rs
pub data IncentivizedOutboundError : Type 0 where
  payload_too_large queue_size_limit_reached no_funds overflow : IncentivizedOutboundError

-- parachain/pallets/dot-app/src/lib.rs
pub data DotAppError : Type 0 where
  overflow : DotAppError

-- parachain/pallets/erc721-app/src/lib.rs
pub data Erc721AppError : Type 0 where
  token_already_minted token_not_found : Erc721AppError

-- `sp_runtime::DispatchError`, with one `Module` case for each pallet's errors. `panic` is no value
-- of the source's type: it stands for a call that aborts, as where `U256` arithmetic overflows.
pub data DispatchError : Type 0 where
  other : String → DispatchError
  panic cannot_lookup bad_origin : DispatchError
  assets : AssetsError → DispatchError
  nft : NftError → DispatchError
  light_client : LightClientError → DispatchError
  basic_inbound incentivized_inbound : InboundError → DispatchError
  basic_outbound : BasicOutboundError → DispatchError
  incentivized_outbound : IncentivizedOutboundError → DispatchError
  dot_app : DotAppError → DispatchError
  erc721_app : Erc721AppError → DispatchError
