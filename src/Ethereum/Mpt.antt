-- ===== src/Ethereum/Mpt.antt =====
-- parachain/primitives/ethereum/src/mpt.rs and `Header::apply_merkle_proof`: nodes of the receipts
-- trie and the inclusion proof along them.
pub mod Inclusion
use polkadot_ethereum.Prelude.Optional.{◌>>=◌, traverse}
use polkadot_ethereum.Core.{H256, Bytes}
use polkadot_ethereum.Ethereum.{Codec, bytes_beq}
use polkadot_ethereum.Prelude.{
  ◌∷◌, false, Option, List, ◌==◌, Bool, none, if◌then◌else◌, [], reverse, length, get_elem?, some,
  foldl, find,
}
use polkadot_ethereum.Prelude.Map.{is_some}

-- `ShortNode`, `FullNode`: the implementations of the trait `Node`
pub record ShortNode : Type 0 where
  pub key : Bytes
  pub value : Bytes

pub record FullNode : Type 0 where
  pub children : List (Option H256)

pub data Node : Type 0 where
  short : ShortNode → Node
  full : FullNode → Node

abbrev child_is : H256 → Option H256 → Bool
child_is hash none = false
child_is hash (some h) = hash == h

module _ (c : Codec) where
  open c use {keccak_256, as_bytes, from_bytes, items, item_count, val_bytes}

  pub decode_child : Bytes → Option (Option H256)
  decode_child item = do
    v ← val_bytes item
    if length v == 0 then some none else if length v == 32 then some (some (from_bytes v)) else none

  pub decode_full : Bytes → Option FullNode
  unfolding decode_child
  decode_full rlp = do
    children ← traverse decode_child (items rlp)
    some (record { children = children })

  unfoldable pub decode_short : Bytes → Option ShortNode
  decode_short rlp = do
    let iter = items rlp
    key ← get_elem? iter 0 >>= val_bytes
    value ← get_elem? iter 1 >>= val_bytes
    some (record { key = key; value = value })

  -- `Box<dyn Node>::try_from`
  pub decode_node : Bytes → Option Node
  unfolding decode_full decode_short
  decode_node rlp = do
    count ← item_count rlp
    if count == 2
        then (do node ← decode_short rlp; some (short node))
        else if count == 17
        then (do node ← decode_full rlp; some (full node))
        else none

  -- `Node::contains_hash`
  pub contains_hash : Node → H256 → Bool
  contains_hash (short node) hash = bytes_beq node.value (as_bytes hash)
  contains_hash (full node) hash = is_some (find (child_is hash) node.children)

  -- One step of the `fold`.
  pub merkle_step : Option H256 → Bytes → Option H256
  merkle_step maybe_hash bytes = do
    expected_hash ← maybe_hash
    node ← decode_node bytes
    if contains_hash node expected_hash then some (keccak_256 bytes) else none

  unfoldable pub fold_proof : Option H256 → List Bytes → Option H256
  fold_proof = foldl merkle_step

  -- `Header::apply_merkle_proof`
  unfoldable pub apply_from_leaf : List Bytes → Option (H256 × Bytes)
  apply_from_leaf [] = none
  apply_from_leaf (first ∷ rest) = do
    item_to_prove ← decode_short first
    final_hash ← fold_proof (some (keccak_256 first)) rest
    some (final_hash, item_to_prove.value)

  unfoldable pub apply_merkle_proof : List Bytes → Option (H256 × Bytes)
  unfolding apply_from_leaf fold_proof
  apply_merkle_proof proof = apply_from_leaf (reverse proof)
