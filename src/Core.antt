-- ===== src/Core.antt =====
-- parachain/primitives/core/src: the types that the pallets share. Addresses, hashes, accounts and
-- integers are natural numbers; byte strings are lists of numbers.
use polkadot_ethereum.Prelude.{ℕ, ◌≡◌, ◌↔◌, Bool, true, false, List, arith, ◌==◌}
use polkadot_ethereum.Prelude.Eq.{Eq}

abbrev pub H160 : Type 0
H160 = ℕ

abbrev pub H256 : Type 0
H256 = ℕ

abbrev pub U256 : Type 0
U256 = ℕ

abbrev pub AccountId : Type 0
AccountId = ℕ

abbrev pub Bytes : Type 0
Bytes = List ℕ

pub data ChannelId : Type 0 where
  basic incentivized : ChannelId

pub record MessageId : Type 0 where
  pub channel_id : ChannelId
  pub nonce : ℕ

pub record Proof : Type 0 where
  pub block_hash : H256
  pub tx_index : ℕ
  pub keys : List Bytes
  pub values : List Bytes

pub record Message : Type 0 where
  -- `data` in the source
  pub raw : Bytes
  pub proof : Proof

pub data AuxiliaryDigestItem : Type 0 where
  commitment : ChannelId → H256 → AuxiliaryDigestItem

pub data AssetId : Type 0 where
  eth : AssetId
  token : H160 → AssetId

abbrev pub asset_beq : AssetId → AssetId → Bool
asset_beq eth eth = true
asset_beq (token a) (token b) = a == b
asset_beq _ _ = false

pub asset_beq_iff : (a b : AssetId) → (asset_beq a b ≡ true) ↔ (a ≡ b)
asset_beq_iff a b = ground arith

instance abbrev pub asset_eq : Eq AssetId
asset_eq = record { beq = asset_beq; beq_iff = asset_beq_iff }

pub record Erc721TokenData : Type 0 where
  pub token_contract : H160
  pub token_id : U256

pub record TokenInfo : Type 0 where
  pub owner : AccountId
  pub metadata : Bytes
  pub properties : Erc721TokenData
