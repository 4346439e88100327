-- ===== src/LightClient/Validate.antt =====
-- `validate_header_to_import`, and `verify` with `verify_receipt_inclusion`: the reads.
pub mod Accepted
pub mod Verified
use polkadot_ethereum.Frame.{
  ◌>>=◌, ◌>>◌, LightClientError, DispatchError, ok, DispatchError, Call, Dispatch, Result, err,
  DispatchError, pure, ensure, gets, ok_or, raise, invalid_header, invalid_proof, missing_header,
  duplicate_header, header_not_finalized, missing_parent_header, ancient_header, unknown,
  header_on_stale_fork,
}
use polkadot_ethereum.Core.{H256, Message, Proof, asset_eq}
use polkadot_ethereum.Ethereum.{Header, Receipt, Log}
use polkadot_ethereum.Ethereum.Hashing
use polkadot_ethereum.Ethereum.Difficulty
use polkadot_ethereum.LightClient.{Config, LightClient, EthashProofData, ancestry}
use polkadot_ethereum.Prelude.{
  ◌+◌, ℕ, ◌%◌, ◌/◌, List, Option, ◌&&◌, ◌==◌, if◌then◌else◌, find, leb, not, ltb, length,
}
use polkadot_ethereum.Prelude.Map.{lookup, contains_key}
use polkadot_ethereum.Ethereum.Decode.{decode_log, contains_log}
use polkadot_ethereum.Prelude.Word.{checked_mul, u256_mod, u64_mod}
use polkadot_ethereum.Prelude.Eq.{nat_eq, pair_eq, list_eq}

abbrev pub fail : LightClientError → DispatchError
fail = DispatchError.light_client

-- The checks that make a header a child of its parent, up to the difficulty.
unfoldable pub check_basic : Header → Header → Dispatch LightClient
check_basic header parent = do
  ensure (leb header.gas_used header.gas_limit) (fail invalid_header)
  upper ← ok_or (checked_mul u256_mod parent.gas_limit 1025) DispatchError.panic
  ensure (ltb header.gas_limit (upper / 1024)) (fail invalid_header)
  lower ← ok_or (checked_mul u256_mod parent.gas_limit 1023) DispatchError.panic
  ensure (ltb (lower / 1024) header.gas_limit) (fail invalid_header)
  ensure
      (leb 5000 header.gas_limit
        && (ltb parent.timestamp header.timestamp
            && (header.number == (parent.number + 1) % u64_mod
                && leb (length header.extra_data) 32)))
      (fail invalid_header)

abbrev header_difficulty : Result Difficulty.DifficultyError ℕ → Call LightClient ℕ
header_difficulty (ok d) = pure d
header_difficulty (err Difficulty.overflow_panic) = raise DispatchError.panic
header_difficulty (err Difficulty.before_byzantium) = raise (fail invalid_header)
header_difficulty (err Difficulty.invalid_block_time) = raise (fail invalid_header)

module _ (c : Config) where
  unfoldable pub check_difficulty : Header → Header → Dispatch LightClient
  check_difficulty header parent = do
    expected ←
        header_difficulty (Difficulty.calc_difficulty c.difficulty_config header.timestamp parent)
    ensure (header.difficulty == expected) (fail invalid_header)

  unfoldable pub check_pow : Header → List EthashProofData → Dispatch LightClient
  check_pow header proof = do
    header_mix_hash ← ok_or (Hashing.mix_hash c.codec header) (fail invalid_header)
    header_nonce ← ok_or (Hashing.nonce c.codec header) (fail invalid_header)
    (mix_hash, result) ←
        ok_or
          (c.hashimoto_merkle (Hashing.compute_partial_hash c.codec header) header_nonce
            header.number proof)
          (fail invalid_header)
    ensure (mix_hash == header_mix_hash && ltb result (c.cross_boundary header.difficulty))
        (fail invalid_header)

  -- The checks that are made only where `VerifyPoW` holds.
  unfoldable pub check_child : Header → Header → List EthashProofData → Dispatch LightClient
  check_child header parent proof = do
    check_basic header parent
    check_difficulty header parent
    check_pow header proof

  unfoldable pub ancestor_at : H256 → ℕ → LightClient → Option (H256 × Header)
  unfolding ancestry
  ancestor_at hash number s = find (λ pair. pair.1.number == number) (ancestry hash s)

  unfoldable pub validate_header_to_import : Header → List EthashProofData → Dispatch LightClient
  validate_header_to_import header proof = do
    let hash = Hashing.compute_hash c.codec header
    known ← gets (λ s. contains_key hash s.headers)
    ensure (not known) (fail duplicate_header)
    found ← gets (λ s. lookup header.parent_hash s.headers)
    stored ← ok_or found (fail missing_parent_header)
    let parent = stored.header
    finalized ← gets (λ s. s.finalized_block)
    ensure (ltb finalized.number header.number) (fail ancient_header)
    at_finalized ← gets (ancestor_at header.parent_hash finalized.number)
    ancestor ← ok_or at_finalized (fail unknown)
    ensure (ancestor.0 == finalized.hash) (fail header_on_stale_fork)
    if not c.verify_pow then pure tt else check_child header parent proof

  unfoldable pub verify_receipt_inclusion : Proof → Call LightClient Receipt
  verify_receipt_inclusion proof = do
    found ← gets (λ s. lookup proof.block_hash s.headers)
    stored ← ok_or found (fail missing_header)
    ensure stored.finalized (fail header_not_finalized)
    ok_or (Hashing.check_receipt_proof c.codec proof.values stored.header) (fail invalid_proof)

  unfoldable pub verify : Message → Call LightClient Log
  verify message = do
    receipt ← verify_receipt_inclusion message.proof
    log ← ok_or (decode_log c.codec message.raw) (fail invalid_proof)
    ensure (contains_log receipt log) (fail invalid_proof)
    pure log
