-- ===== src/Ethereum/Ethash/Proved.antt =====
-- `hashimoto_merkle` against Ethash over the whole dataset.
use polkadot_ethereum.Core.{Bytes, H256}
use polkadot_ethereum.Prelude.{ℕ, List, some, ◌+◌, ◌/◌, ◌%◌, length, get_elem?, ◌≡◌, ◌<◌, refl, All}
use polkadot_ethereum.Prelude.Eq.{nat_eq}
use polkadot_ethereum.Ethereum.Ethash.{
  EthashCrate, DoubleNodeWithMerkleProof, Lookups, finished, looks_up, word,
}
use polkadot_ethereum.Ethereum.Ethash.Tree.{Tree, leaf_at, IsSized, IsHash}
use polkadot_ethereum.Ethereum.Ethash.Inclusion.{IsPath}

-- Ethash reads the words of the dataset two by two: an even one, then the next one. From the lookup
-- `idx` on, where `last` is the place of the one before, 128 in all.
abbrev pub ReadsPairs : ℕ → ℕ → Lookups → Type 0
ReadsPairs idx last (finished results) = idx ≡ 128
ReadsPairs idx last (looks_up offset next) =
    (idx < 128)
    × (idx % 2 ≡ 0 → offset % 2 ≡ 0)
    × (idx % 2 ≡ 1 → offset ≡ last + 1)
    × ((bytes : Bytes) → ReadsPairs (idx + 1) offset (next bytes))

-- A word of the dataset, as the crate reads it.
unfoldable pub dataset_word : {n : ℕ} → Tree n → ℕ → Bytes
dataset_word t offset = word (leaf_at t (offset / 2)) offset

-- Ethash with the whole dataset at hand: no proofs.
unfoldable pub full_hashimoto : {n : ℕ} → Tree n → Lookups → H256 × H256
full_hashimoto t (finished results) = results
full_hashimoto t (looks_up offset next) = full_hashimoto t (next (dataset_word t offset))

-- Nodes have 64 bytes each, and the hashes of their paths 16.
abbrev pub AreSized : List DoubleNodeWithMerkleProof → Type 0
AreSized = All (λ (node : DoubleNodeWithMerkleProof).
    (length node.dag_nodes.0 ≡ 64) × (length node.dag_nodes.1 ≡ 64) × IsPath node.path)

-- The words of one node, by the parity of the lookup.
pub word_same :
    (d : Bytes × Bytes) (idx offset : ℕ) → idx % 2 ≡ offset % 2 → word d idx ≡ word d offset
unfolding word
word_same d idx offset e = rw e refl

module _ (crate : EthashCrate) where
  module _ (h : IsHash crate) {n : ℕ} (t : Tree n) (sz : IsSized t) where
    -- The node of the current pair is the one that the dataset has there.
    IsAt : List DoubleNodeWithMerkleProof → ℕ → ℕ → Type 0
    IsAt nodes idx last =
        idx % 2 ≡ 1
        → (node : DoubleNodeWithMerkleProof) → get_elem? nodes (idx / 2) ≡ some node
        → (node.dag_nodes ≡ leaf_at t (last / 2)) × (last % 2 ≡ 0)
