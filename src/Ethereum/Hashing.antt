-- ===== src/Ethereum/Hashing.antt =====
-- parachain/primitives/ethereum/src/header.rs: the RLP stream of a header, its hashes, the seal
-- fields and the receipt proof.
use polkadot_ethereum.Prelude.Optional.{◌>>=◌}
use polkadot_ethereum.Core.{H256, Bytes}
use polkadot_ethereum.Ethereum.{Codec, Header, Receipt, Field}
use polkadot_ethereum.Ethereum.Decode.{decode_receipt}
use polkadot_ethereum.Ethereum.Mpt.{apply_merkle_proof}
use polkadot_ethereum.Prelude.{
  none, Bool, refl, ◌==◌, arith, ◌++◌, ℕ, List, ◌∷◌, true, Option, false, ◌≡◌, ◌+◌, if◌then◌else◌,
  [], get_elem?, some, length, not, map, length-append, ap, ltb, suc, zero,
}
use polkadot_ethereum.Prelude.Map.{is_some}

abbrev pub empty_ommers_hash : H256
empty_ommers_hash = 0x1dcc4de8dec75d7aab85b567b6ccd41ad312451b948a7413f0a142fd40d49347

unfoldable pub has_ommers : Header → Bool
has_ommers h = not (h.ommers_hash == empty_ommers_hash)

-- The length that the stream's list is opened with.
unfoldable pub stream_length : Bool → Header → ℕ
stream_length with_seal h =
    let without_seal : ℕ = if is_some h.base_fee then 14 else 13 in
    if with_seal then without_seal + length h.seal else without_seal

abbrev base_fee_field : Option ℕ → List Field
base_fee_field none = []
base_fee_field (some fee) = Field.uint fee ∷ []

-- What is appended to the stream, in order.
unfoldable pub stream_fields : Bool → Header → List Field
stream_fields with_seal h =
    Field.hash h.parent_hash
    ∷ Field.hash h.ommers_hash
    ∷ Field.address h.author
    ∷ Field.hash h.state_root
    ∷ Field.hash h.transactions_root
    ∷ Field.hash h.receipts_root
    ∷ Field.bytes h.logs_bloom
    ∷ Field.uint h.difficulty
    ∷ Field.uint h.number
    ∷ Field.uint h.gas_limit
    ∷ Field.uint h.gas_used
    ∷ Field.uint h.timestamp
    ∷ Field.bytes h.extra_data
    ∷ ((if with_seal then map Field.raw h.seal else []) ++ base_fee_field h.base_fee)

length-map_raw : (seal : List Bytes) → length (map Field.raw seal) ≡ length seal
length-map_raw [] = refl
length-map_raw (b ∷ bs) = ap suc (length-map_raw bs)

-- The RLP list of a header, sealed or not, with a base fee or not, is opened with exactly the number
-- of items that are then appended, so the stream is complete.
pub stream_complete :
    (with_seal : Bool) (h : Header) → length (stream_fields with_seal h) ≡ stream_length with_seal h
unfolding stream_fields stream_length
stream_complete true h =
    ground (
      arith,
      length-append (map Field.raw h.seal) (base_fee_field h.base_fee),
      length-map_raw h.seal,
    )
stream_complete false h = ground arith

-- Zeros in front of a seal field that is shorter than its type.
abbrev pad_left : ℕ → Bytes → Bytes
pad_left zero bytes = bytes
pad_left (suc n) bytes = if ltb n (length bytes) then bytes else 0 ∷ pad_left n bytes

module _ (c : Codec) where
  open c use {keccak_256, from_bytes, stream_out, val_bytes}

  unfoldable pub rlp : Bool → Header → Bytes
  rlp with_seal h = stream_out (stream_length with_seal h) (stream_fields with_seal h)

  unfoldable pub compute_hash : Header → H256
  unfolding rlp stream_length stream_fields
  compute_hash h = keccak_256 (rlp true h)

  unfoldable pub compute_partial_hash : Header → H256
  unfolding rlp stream_length stream_fields
  compute_partial_hash h = keccak_256 (rlp false h)

  unfoldable pub decoded_seal_field : ℕ → ℕ → Header → Option Bytes
  decoded_seal_field index max_len h = do
    field ← get_elem? h.seal index
    bytes ← val_bytes field
    if ltb max_len (length bytes) then none else some bytes

  unfoldable pub mix_hash : Header → Option H256
  unfolding decoded_seal_field
  mix_hash h = do bytes ← decoded_seal_field 0 32 h; some (from_bytes (pad_left 32 bytes))

  -- An `H64`, as its 8 bytes.
  unfoldable pub nonce : Header → Option Bytes
  unfolding decoded_seal_field
  nonce h = do bytes ← decoded_seal_field 1 8 h; some (pad_left 8 bytes)

  unfoldable pub check_receipt_proof : List Bytes → Header → Option Receipt
  check_receipt_proof proof h = do
    (root, leaf) ← apply_merkle_proof c proof
    if root == h.receipts_root then decode_receipt c leaf else none
