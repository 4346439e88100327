-- ===== src/Ethereum.antt =====
-- parachain/primitives/ethereum/src: Ethereum's headers, receipts and logs as the parachain reads
-- them. The crates `rlp` and `tiny-keccak` are not part of the repository: what is used of them is
-- the record `Codec`.
pub mod Decode
pub mod Mpt
pub mod Hashing
pub mod Difficulty
pub mod Ethash
mod Tests
use polkadot_ethereum.Core.{H160, H256, U256, Bytes, asset_eq}
use polkadot_ethereum.Prelude.{Option, ◌≡◌, List, ◌==◌, ◌&&◌, arith, ℕ, Bool, ◌↔◌, true}
use polkadot_ethereum.Prelude.Eq.{list_beq, list_beq_iff, nat_eq, pair_eq, list_eq}

-- header.rs
pub record HeaderId : Type 0 where
  pub number : ℕ
  pub hash : H256

abbrev pub header_id_beq : HeaderId → HeaderId → Bool
header_id_beq a b = a.number == b.number && a.hash == b.hash

pub record Header : Type 0 where
  pub parent_hash : H256
  pub timestamp : ℕ
  pub number : ℕ
  pub author : H160
  pub transactions_root : H256
  pub ommers_hash : H256
  pub extra_data : Bytes
  pub state_root : H256
  pub receipts_root : H256
  pub logs_bloom : Bytes
  pub gas_used : U256
  pub gas_limit : U256
  pub difficulty : U256
  pub seal : List Bytes
  pub base_fee : Option U256

-- log.rs
pub record Log : Type 0 where
  pub address : H160
  pub topics : List H256
  -- `data` in the source
  pub body : Bytes

abbrev pub bytes_beq : Bytes → Bytes → Bool
bytes_beq = list_beq

-- derived `PartialEq`
unfoldable pub log_beq : Log → Log → Bool
log_beq a b = a.address == b.address && (bytes_beq a.topics b.topics && bytes_beq a.body b.body)

pub log_beq_iff : (a b : Log) → (log_beq a b ≡ true) ↔ (a ≡ b)
unfolding log_beq
log_beq_iff a b = ground (arith, list_beq_iff a.topics b.topics, list_beq_iff a.body b.body)

-- receipt.rs
pub record Receipt : Type 0 where
  pub post_state_or_status : Bytes
  pub cumulative_gas_used : ℕ
  pub bloom : Bytes
  pub logs : List Log

-- What a header's RLP stream is given: `append` of an integer, a hash or bytes, and `append_raw`.
pub data Field : Type 0 where
  hash : H256 → Field
  address : H160 → Field
  uint : ℕ → Field
  bytes : Bytes → Field
  raw : Bytes → Field

-- The crates' functions. A value of `rlp::Rlp` is the byte slice that it views.
pub record Codec : Type 0 where
  pub keccak_256 : Bytes → H256
  -- `H256::as_bytes`: 32 bytes
  pub as_bytes : H256 → Bytes
  pub from_bytes : Bytes → H256
  -- `RlpStream`: the length given to `begin_list`, and what is appended
  pub stream_out : ℕ → List Field → Bytes
  -- `Rlp::iter`, `Rlp::item_count`, `Rlp::data`
  pub items : Bytes → List Bytes
  pub item_count : Bytes → Option ℕ
  pub payload : Bytes → Option Bytes
  -- `Rlp::as_val` at `Vec<u8>`, `u64`, `H160` and `H256`
  pub val_bytes : Bytes → Option Bytes
  pub val_u64 : Bytes → Option ℕ
  pub val_h160 : Bytes → Option H160
  pub val_h256 : Bytes → Option H256
