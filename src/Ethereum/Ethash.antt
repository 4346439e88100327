-- ===== src/Ethereum/Ethash.antt =====
-- parachain/primitives/ethereum/src/ethashproof.rs: proofs of work are checked against Merkle proofs
-- of the words of the Ethash dataset that they use. Hashes are lists of bytes here: 16 for `H128`, 64
-- for `H512`.
-- The crates `ethash` and `sp_io` are not part of the repository: what is used of them is the record
-- `EthashCrate`. There the crate's `hashimoto_with_hasher` is the tree of its calls of the function
-- that looks words up: what it does next depends on the words that it has been given.
pub mod Roots
pub mod Tree
pub mod Rounds
pub mod Inclusion
pub mod Cache
pub mod Recent
pub mod Lru
pub mod Light
pub mod Proved
pub mod Honest
pub mod Tests
use polkadot_ethereum.Core.{Bytes, H256}
use polkadot_ethereum.Frame.{Result, ok, err}
use polkadot_ethereum.Prelude.{
  ℕ, List, [], ◌∷◌, ◌++◌, reverse, Option, none, some, Bool, true, false, ◌&&◌, if◌then◌else◌, ◌+◌,
  ◌-◌, ◌*◌, ◌/◌, ◌%◌, ◌^◌, zero, suc, ◌==◌, ltb, get_elem?, drop, take, length,
}
use polkadot_ethereum.Prelude.Eq.{list_beq, nat_eq}
use polkadot_ethereum.Ethereum.Ethash.Roots.{dags_start_epoch, dags_merkle_roots}

abbrev pub epoch_length : ℕ
epoch_length = 30000

abbrev pub mix_bytes : ℕ
mix_bytes = 128

abbrev pub hash_bytes : ℕ
hash_bytes = 64

abbrev pub accesses : ℕ
accesses = 64

pub record DoubleNodeWithMerkleProof : Type 0 where
  pub dag_nodes : Bytes × Bytes
  -- `proof` in the source
  pub path : List Bytes

pub data Lookups : Type 0 where
  finished : H256 × H256 → Lookups
  looks_up : ℕ → (Bytes → Lookups) → Lookups

pub record EthashCrate : Type 0 where
  pub sha2_256 : Bytes → Bytes
  pub get_full_size : ℕ → ℕ
  pub hashimoto_with_hasher : H256 → Bytes → ℕ → Lookups
  pub hashimoto_light : H256 → Bytes → ℕ → Bytes → H256 × H256
  pub get_seedhash : ℕ → H256
  pub get_cache_size : ℕ → ℕ
  -- `make_cache` on a slice of that many zero bytes
  pub make_cache : ℕ → H256 → Bytes

-- `Error`, and the panic of an index out of bounds
pub data EthashError : Type 0 where
  epoch_out_of_range invalid_merkle_proof unexpected_number_of_nodes index_panic : EthashError

-- So many bytes of a number, the most significant one first.
unfoldable pub be_bytes : ℕ → ℕ → Bytes
be_bytes zero n = []
be_bytes (suc k) n = be_bytes k (n / 256) ++ (n % 256) ∷ []

abbrev pub zeros : ℕ → Bytes
zeros zero = []
zeros (suc n) = 0 ∷ zeros n

-- `dag_merkle_root`. The first epoch is 0, so the subtraction does not wrap.
unfoldable pub dag_merkle_root : ℕ → Option Bytes
unfolding be_bytes
dag_merkle_root epoch = elim (get_elem? dags_merkle_roots (epoch - dags_start_epoch)) [
  | none ↦ none
  | some root ↦ some (be_bytes 16 root)
]

-- "Reverse each 32 bytes for ETHASH compatibility"
unfoldable pub reversed_halves : Bytes → Bytes
reversed_halves node = reverse (take 32 node) ++ reverse (drop 32 node)

-- `node.dag_nodes[idx % 2]`, as it is handed to the crate
unfoldable pub word : Bytes × Bytes → ℕ → Bytes
unfolding reversed_halves
word nodes idx = reversed_halves (if idx % 2 == 0 then nodes.0 else nodes.1)

module _ (crate : EthashCrate) where
  unfoldable pub truncate_to_h128 : Bytes → Bytes
  truncate_to_h128 hash = drop 16 hash

  unfoldable pub hash_h128 : Bytes → Bytes → Bytes
  unfolding truncate_to_h128
  hash_h128 l r = truncate_to_h128 (crate.sha2_256 (zeros 16 ++ (l ++ (zeros 16 ++ r))))

  unfoldable pub leaf_hash : Bytes × Bytes → Bytes
  unfolding truncate_to_h128
  leaf_hash nodes = truncate_to_h128 (crate.sha2_256 (nodes.0 ++ nodes.1))

  -- One round of the loop, on which side of the hash depends on the bit of the index.
  unfoldable pub merkle_join : ℕ → ℕ → Bytes → Bytes → Bytes
  unfolding hash_h128
  merkle_join index i leaf sibling =
      if (index / 2 ^ i) % 2 == 0 then hash_h128 leaf sibling else hash_h128 sibling leaf

  -- The rounds from `i` on. A shift of a `u64` by 64 bits or more fails.
  unfoldable pub climb : ℕ → ℕ → Bytes → List Bytes → Option Bytes
  unfolding merkle_join
  climb index i leaf [] = some leaf
  climb index i leaf (sibling ∷ path) = elim (ltb i 64) [
    | false ↦ none
    | true ↦ climb index (i + 1) (merkle_join index i leaf sibling) path
  ]

  -- `none` is the error "Failed to shift index".
  unfoldable pub apply_merkle_proof : DoubleNodeWithMerkleProof → ℕ → Option Bytes
  unfolding climb leaf_hash
  apply_merkle_proof node index = climb index 0 (leaf_hash node.dag_nodes) node.path

  -- Whether a lookup leaves `success` as it is: the second one of a node always does.
  unfoldable pub passes : Bytes → DoubleNodeWithMerkleProof → ℕ → ℕ → Bool
  unfolding apply_merkle_proof
  passes merkle_root node offset idx =
      if idx % 2 == 0
      then elim (apply_merkle_proof node (offset / 2)) [
        | none ↦ false
        | some computed_root ↦ list_beq merkle_root computed_root
      ]
      else true

  -- The crate's run with the closure of `hashimoto_merkle`, whose cells are `index` and `success`.
  -- `none` is the panic of `nodes[idx / 2]` out of bounds.
  unfoldable pub run :
      List DoubleNodeWithMerkleProof → Bytes → Lookups → ℕ → Bool → Option ((H256 × H256) × Bool)
  unfolding passes word
  run nodes merkle_root (finished results) idx success = some (results, success)
  run nodes merkle_root (looks_up offset next) idx success = elim (get_elem? nodes (idx / 2)) [
    | none ↦ none
    | some node ↦
        run nodes merkle_root (next (word node.dag_nodes idx)) (idx + 1)
          (success && passes merkle_root node offset idx)
  ]

  abbrev pub outcome_of : Option ((H256 × H256) × Bool) → Result EthashError (H256 × H256)
  outcome_of none = err index_panic
  outcome_of (some (results, true)) = ok results
  outcome_of (some (results, false)) = err invalid_merkle_proof

  unfoldable pub hashimoto_merkle :
      H256 → Bytes → ℕ → List DoubleNodeWithMerkleProof → Result EthashError (H256 × H256)
  unfolding run dag_merkle_root
  hashimoto_merkle header_hash nonce header_number nodes =
      if length nodes == (mix_bytes / hash_bytes) * accesses / 2
      then elim (dag_merkle_root (header_number / epoch_length)) [
        | none ↦ err epoch_out_of_range
        | some merkle_root ↦
            let full_size = crate.get_full_size (header_number / epoch_length) in
            outcome_of (
              run nodes merkle_root (crate.hashimoto_with_hasher header_hash nonce full_size) 0
                true)
      ]
      else err unexpected_number_of_nodes
