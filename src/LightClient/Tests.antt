-- ===== src/LightClient/Tests.antt =====
-- The theorems on the light client at a small chain: a finalized block 7, block 8 above it, and a
-- block 9 that is imported and finalizes block 8.
mod Invariants
mod Executions
mod Work
use polkadot_ethereum.Prelude.{◌⊎◌, ◌≢◌, ◌<◌}
use polkadot_ethereum.LightClient.Import.Finality.{IsLinked}
use polkadot_ethereum.Prelude.Map.{Map, lookup}
use polkadot_ethereum.LightClient.{Config, StoredHeader, LightClient}
use polkadot_ethereum.Prelude.{
  ◌↔◌, arith, ◌*◌, some, none, ℕ, Bool, true, false, Option, ◌∷◌, ◌≡◌, refl, ◌≤◌, ◌-◌, ◌+◌, [],
  get_elem?,
}
use polkadot_ethereum.Ethereum.{Field, Codec, Header}
use polkadot_ethereum.LightClient.Ancestry.{IsChained}
use polkadot_ethereum.Core.{U256, H256, Bytes, asset_eq}
use polkadot_ethereum.LightClient.Import.Chained.{IsUnforeseen}
use polkadot_ethereum.LightClient.Import.Best.{IsBest}
use polkadot_ethereum.Prelude.Eq.{nat_eq, pair_eq, list_eq}
use polkadot_ethereum.Ethereum.Hashing
use polkadot_ethereum.Ethereum.Difficulty

abbrev pub number_bytes : Option Field → Bytes
number_bytes (some (Field.uint n)) = n ∷ []
number_bytes _ = []

abbrev pub sum_bytes : Bytes → ℕ
sum_bytes [] = 1000
sum_bytes (b ∷ bs) = b + sum_bytes bs

-- A stream shows the number of its header, and a hash adds 1000. An item is its own payload, and the
-- list of an item holds the item four times.
abbrev pub codec : Codec
codec = record {
  keccak_256 = sum_bytes;
  as_bytes = λ hash. hash ∷ [];
  from_bytes = λ bytes. 0;
  stream_out = λ n fields. number_bytes (get_elem? fields 8);
  items = λ bytes. bytes ∷ bytes ∷ bytes ∷ bytes ∷ [];
  item_count = λ bytes. some 2;
  payload = λ bytes. some bytes;
  val_bytes = λ bytes. some bytes;
  val_u64 = λ bytes. some 0;
  val_h160 = λ bytes. some 0;
  val_h256 = λ bytes. some 0;
}

abbrev pub config : Config
config = record {
  codec = codec;
  descendants_until_finalized = 1;
  difficulty_config = record {
    byzantium_fork_block = 0;
    constantinople_fork_block = 0;
    muir_glacier_fork_block = 0;
    london_fork_block = 0;
  };
  verify_pow = true;
  hashimoto_merkle = λ hash nonce number proof. some (0, 0);
  cross_boundary = λ difficulty. 1;
}

abbrev pub header_at : ℕ → H256 → ℕ → Header
header_at number parent difficulty = record {
  parent_hash = parent;
  timestamp = 9 * number;
  number = number;
  author = 0;
  transactions_root = 0;
  ommers_hash = 1;
  extra_data = [];
  state_root = 0;
  receipts_root = 1000;
  logs_bloom = [];
  gas_used = 0;
  gas_limit = 6000;
  difficulty = difficulty;
  seal = [] ∷ [] ∷ [];
  base_fee = none;
}

abbrev pub stored_at : Header → U256 → Bool → StoredHeader
stored_at header total is_final = record {
  submitter = none;
  header = header;
  total_difficulty = total;
  finalized = is_final;
}

abbrev pub block_7 : StoredHeader
block_7 = stored_at (header_at 7 3 2048000) 5000000 true

abbrev pub block_8 : StoredHeader
block_8 = stored_at (header_at 8 1007 2048000) 7048000 false

abbrev pub block_9 : Header
block_9 = header_at 9 1008 2049000

abbrev pub chain : Map H256 StoredHeader
chain = (1007, block_7) ∷ (1008, block_8) ∷ []

abbrev pub state : LightClient
state = record {
  best_block = (record { number = 8; hash = 1008 }, 7048000);
  blocks_to_prune = record { oldest_unpruned_block = 7; oldest_block_to_keep = 7 };
  finalized_block = record { number = 7; hash = 1007 };
  headers = chain;
  headers_by_number = (7, 1007 ∷ []) ∷ (8, 1008 ∷ []) ∷ [];
}

hash_9 : Hashing.compute_hash codec block_9 ≡ 1009
unfolding Hashing.compute_hash Hashing.rlp Hashing.stream_fields Hashing.stream_length
hash_9 = refl

pub chain-IsChained : IsChained chain
unfolding lookup
chain-IsChained = record { linked = λ h child parent e f. ground arith }

pub chain-IsLinked : IsLinked chain
unfolding lookup
chain-IsLinked = record { chained = chain-IsChained; sized = λ h x e. ground arith }

pub block_9-IsUnforeseen : IsUnforeseen (Hashing.compute_hash codec block_9) chain
unfolding lookup
block_9-IsUnforeseen = record { no_child = λ h x e. ground (arith, hash_9) }

pub state-IsBest : IsBest state
unfolding lookup
state-IsBest = record { highest = λ h x e. ground arith }
