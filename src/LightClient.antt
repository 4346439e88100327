-- ===== src/LightClient.antt =====
-- parachain/pallets/ethereum-light-client/src/lib.rs: the Ethereum light client. Storage, genesis,
-- import of headers and verification of messages.
-- The iterator of `ancestry` ends where a parent is not stored. It is given one step for each stored
-- header.
pub mod Ancestry
pub mod Within
pub mod Prune
pub mod Validate
pub mod Import
pub mod Genesis
pub mod Work
pub mod Tests
use polkadot_ethereum.Core.{H256, U256, AccountId, Bytes, asset_eq}
use polkadot_ethereum.Ethereum.{Header, HeaderId, Codec}
use polkadot_ethereum.Ethereum.Difficulty.{DifficultyConfig}
use polkadot_ethereum.Ethereum.Ethash.{DoubleNodeWithMerkleProof}
use polkadot_ethereum.Prelude.{ℕ, suc, List, none, some, Option, ◌∷◌, zero, Bool, [], length}
use polkadot_ethereum.Prelude.Map.{Map, lookup}
use polkadot_ethereum.Prelude.Eq.{nat_eq, pair_eq, list_eq}

abbrev pub finalized_headers_to_keep : ℕ
finalized_headers_to_keep = 50000

abbrev pub headers_to_prune_in_single_import : ℕ
headers_to_prune_in_single_import = 8

pub record StoredHeader : Type 0 where
  pub submitter : Option AccountId
  pub header : Header
  pub total_difficulty : U256
  pub finalized : Bool

pub record PruningRange : Type 0 where
  pub oldest_unpruned_block : ℕ
  pub oldest_block_to_keep : ℕ

pub record LightClient : Type 0 where
  pub best_block : HeaderId × U256
  pub blocks_to_prune : PruningRange
  pub finalized_block : HeaderId
  pub headers : Map H256 StoredHeader
  pub headers_by_number : Map ℕ (List H256)

abbrev pub EthashProofData : Type 0
EthashProofData = DoubleNodeWithMerkleProof

-- The pallet's `Config`, and what it calls outside the pallet: the codec, the Ethash prover with the
-- mix hash and the result (Work has the one of `EthashProver`), and `ethash::cross_boundary`.
pub record Config : Type 0 where
  pub codec : Codec
  pub descendants_until_finalized : ℕ
  pub difficulty_config : DifficultyConfig
  pub verify_pow : Bool
  pub hashimoto_merkle : H256 → Bytes → ℕ → List EthashProofData → Option (H256 × U256)
  pub cross_boundary : U256 → U256

-- `ancestry`: at most so many steps from the given hash
unfoldable pub ancestry_from : ℕ → H256 → Map H256 StoredHeader → List (H256 × Header)
ancestry_from zero hash m = []
ancestry_from (suc n) hash m = elim (lookup hash m) [
  | none ↦ []
  | some stored ↦ (hash, stored.header) ∷ ancestry_from n stored.header.parent_hash m
]

unfoldable pub ancestry : H256 → LightClient → List (H256 × Header)
ancestry hash s = ancestry_from (length s.headers) hash s.headers
