-- ===== src/LightClient/Validate/Verified.antt =====
-- What it means that a message is verified.
use polkadot_ethereum.Core.{Message, Bytes, asset_eq}
use polkadot_ethereum.Ethereum.{Log, Receipt}
use polkadot_ethereum.LightClient.{Config, LightClient, StoredHeader}
use polkadot_ethereum.Ethereum.Mpt.Inclusion.{Included, apply_merkle_proof_iff}
use polkadot_ethereum.Prelude.{In, arith, some, true, ◌≡◌, reverse, Option-cases, inr, inl, ◌↔◌, ap}
use polkadot_ethereum.Frame.{ok}
use polkadot_ethereum.Prelude.Map.{lookup}
use polkadot_ethereum.LightClient.Validate.{verify, verify_receipt_inclusion}
use polkadot_ethereum.Ethereum.Decode.{decode_receipt, decode_log, contains_log_iff}
use polkadot_ethereum.Ethereum.Hashing.{check_receipt_proof}
use polkadot_ethereum.Prelude.Eq.{nat_eq, pair_eq, list_eq}
use polkadot_ethereum.Ethereum.Mpt.{apply_merkle_proof}

-- A finalized header is stored under the proof's block hash, its receipts root is reached from a leaf
-- of the proof, the leaf decodes to a receipt, and the receipt lists the log of the message.
pub record Verified (c : Config) (message : Message) (s : LightClient) (log : Log) : Type 0 where
  pub stored : StoredHeader
  pub known : lookup message.proof.block_hash s.headers ≡ some stored
  pub is_final : stored.finalized ≡ true
  pub leaf : Bytes
  pub included : Included c.codec (reverse message.proof.values) stored.header.receipts_root leaf
  pub receipt : Receipt
  pub decodes : decode_receipt c.codec leaf ≡ some receipt
  pub log_decodes : decode_log c.codec message.raw ≡ some log
  pub listed : In log receipt.logs

module _ (c : Config) (message : Message) (s : LightClient) where
  verify_sound : (log : Log) → (verify c message s).0 ≡ ok log → Verified c message s log
  unfolding verify verify_receipt_inclusion check_receipt_proof
  verify_sound log h = elim (Option-cases (lookup message.proof.block_hash s.headers)) [
    | inl e ↦ ground arith
    | inr (x, e) ↦ elim (Option-cases (apply_merkle_proof c.codec message.proof.values)) [
      | inl f ↦ ground arith
      | inr ((root, leaf), f) ↦ elim (Option-cases (decode_receipt c.codec leaf)) [
        | inl g ↦ ground arith
        | inr (receipt, g) ↦ record {
          stored = x;
          known = e;
          is_final = ground arith;
          leaf = leaf;
          included =
              (apply_merkle_proof_iff c.codec message.proof.values x.header.receipts_root leaf).0
                (ground arith);
          receipt = receipt;
          decodes = g;
          log_decodes = ground arith;
          listed = (contains_log_iff receipt log).0 (ground arith);
        }
      ]
    ]
  ]

  verify_complete : (log : Log) → Verified c message s log → verify c message s ≡ (ok log, s)
  unfolding verify verify_receipt_inclusion check_receipt_proof
  verify_complete log v = ground (
    arith,
    v.known,
    v.is_final,
    (apply_merkle_proof_iff c.codec message.proof.values v.stored.header.receipts_root v.leaf).1
        v.included,
    v.decodes,
    v.log_decodes,
    (contains_log_iff v.receipt log).1 v.listed,
  )

  -- Verification writes nothing.
  pub verify_state : (verify c message s).1 ≡ s
  unfolding verify verify_receipt_inclusion
  verify_state = ground arith

-- A message is verified with a log exactly when a finalized header is stored under the block hash of
-- the proof, the rows of the proof lead from a leaf to its receipts root, the leaf decodes to a
-- receipt, the message decodes to the log, and the receipt lists that log. Verifying writes nothing,
-- whatever its result.
pub verify_iff :
    (c : Config) (message : Message) (s : LightClient) (log : Log)
    → (((verify c message s).0 ≡ ok log) ↔ Verified c message s log) × ((verify c message s).1 ≡ s)
verify_iff c message s log = (
  (verify_sound c message s log, λ v. ap (λ r. r.0) (verify_complete c message s log v)),
  verify_state c message s,
)
