-- ===== src/LightClient/Work.antt =====
-- The proofs of work that the light client checks with the prover of
-- parachain/primitives/ethereum/src/ethashproof.rs.
use polkadot_ethereum.Core.{Bytes, H256, U256, asset_eq}
use polkadot_ethereum.Ethereum.{Header}
use polkadot_ethereum.Ethereum.Hashing
use polkadot_ethereum.Ethereum.Ethash.{
  EthashCrate, EthashError, hashimoto_merkle, dag_merkle_root, epoch_length,
}
use polkadot_ethereum.Ethereum.Ethash.Roots.{
  dags_merkle_roots, length-dags_merkle_roots, dags_start_epoch,
}
use polkadot_ethereum.Ethereum.Ethash.Tree.{Tree, IsSized, IsHash, root}
use polkadot_ethereum.Ethereum.Ethash.Proved.{ReadsPairs, full_hashimoto}
use polkadot_ethereum.Frame.{Result, ok, err, Origin, DispatchError}
use polkadot_ethereum.Frame.Outcome.{Result-cases}
use polkadot_ethereum.LightClient.{Config, LightClient, EthashProofData}
use polkadot_ethereum.LightClient.Validate.{check_pow, validate_header_to_import}
use polkadot_ethereum.LightClient.Validate.Accepted.{validate_state, validate_pow}
use polkadot_ethereum.LightClient.Import.{import_header}
use polkadot_ethereum.Prelude.{
  ℕ, List, Option, none, some, true, ◌≡◌, ◌<◌, ◌≤◌, ◌/◌, inl, inr, arith, Option-cases, refl, ◌≢◌,
  get_elem?-none, ◌-◌, get_elem?,
}
use polkadot_ethereum.Prelude.Eq.{nat_eq, pair_eq, list_eq}

abbrev pub result_of : Result EthashError (H256 × H256) → Option (H256 × U256)
result_of (ok results) = some results
result_of (err _) = none

-- The configuration with `EthashProver::new().hashimoto_merkle(..).map_err(..)`
abbrev pub with_prover : EthashCrate → Config → Config
with_prover crate c = record c {
  hashimoto_merkle = λ header_hash nonce header_number nodes.
      result_of (hashimoto_merkle crate header_hash nonce header_number nodes);
}

module _ (crate : EthashCrate) (c : Config) (header : Header) where
  -- Ethash with the whole dataset gives the header's mix hash, and a result below the boundary of its
  -- difficulty.
  pub record IsWorked {n : ℕ} (t : Tree n) : Type 0 where
    pub mix_hash : H256
    pub nonce : Bytes
    pub result : U256
    pub has_mix_hash : Hashing.mix_hash c.codec header ≡ some mix_hash
    pub has_nonce : Hashing.nonce c.codec header ≡ some nonce
    pub computed :
        full_hashimoto t (
          crate.hashimoto_with_hasher
            (Hashing.compute_partial_hash c.codec header)
            nonce
            (crate.get_full_size (header.number / epoch_length)))
        ≡ (mix_hash, result)
    pub below : result < c.cross_boundary header.difficulty

  -- The epoch's dataset, as `dag_merkle_root` has it, and that the crate reads two words at a time.
  pub record HasDataset {n : ℕ} (t : Tree n) : Type 0 where
    pub hash : IsHash crate
    pub sized : IsSized t
    pub has_root : dag_merkle_root (header.number / epoch_length) ≡ some (root crate t)
    pub reads :
        (nonce : Bytes)
        → ReadsPairs 0 0 (
            crate.hashimoto_with_hasher
              (Hashing.compute_partial_hash c.codec header)
              nonce
              (crate.get_full_size (header.number / epoch_length)))

  -- An import that validation refuses.
  refused :
      (origin : Origin) (proof : List EthashProofData) (s : LightClient) (e : DispatchError)
      → (validate_header_to_import (with_prover crate c) header proof s).0 ≡ err e
      → (x : DispatchError) × (import_header (with_prover crate c) origin header proof s
          ≡ (err x, s))
  unfolding import_header
  refused (Origin.signed who) proof s e h =
      (e, ground (arith, h, validate_state (with_prover crate c) header proof s))
  refused Origin.root proof s e h = (DispatchError.bad_origin, refl)
  refused Origin.unsigned proof s e h = (DispatchError.bad_origin, refl)
  refused (Origin.ethereum who) proof s e h = (DispatchError.bad_origin, refl)

-- The table of roots ends with epoch 511.
no_root : (epoch : ℕ) → 512 ≤ epoch → dag_merkle_root epoch ≡ none
unfolding dag_merkle_root
no_root epoch le =
    let e : get_elem? dags_merkle_roots (epoch - dags_start_epoch) ≡ none =
      get_elem?-none dags_merkle_roots (epoch - dags_start_epoch)
        (omega (arith, length-dags_merkle_roots, le)) in
    rw (dag_merkle_root, e)

not_proved :
    (crate : EthashCrate) (header_hash : H256) (nonce : Bytes) (header_number : ℕ)
    (proof : List EthashProofData)
    → 15360000 ≤ header_number
    → result_of (hashimoto_merkle crate header_hash nonce header_number proof) ≡ none
unfolding hashimoto_merkle
not_proved crate header_hash nonce header_number proof le =
    ground (arith, no_root (header_number / epoch_length) (omega (arith, le)))

pow_fails :
    (crate : EthashCrate) (c : Config) (header : Header) (proof : List EthashProofData)
    (s : LightClient)
    → 15360000 ≤ header.number
    → (check_pow (with_prover crate c) header proof s).0 ≢ ok tt
unfolding check_pow
pow_fails crate c header proof s le = elim (Option-cases (Hashing.nonce c.codec header)) [
  | inl bad ↦ λ e. ground (arith, e, bad)
  | inr (nonce, hn) ↦ λ e. ground (
    arith,
    e,
    hn,
    not_proved crate (Hashing.compute_partial_hash c.codec header) nonce header.number proof le,
  )
]

-- Where proofs of work are verified, no header from number 15,360,000 on can be imported: each such
-- call fails and changes nothing.
pub import_header-ends :
    (crate : EthashCrate) (c : Config) (origin : Origin) (header : Header)
    (proof : List EthashProofData) (s : LightClient)
    → c.verify_pow ≡ true
    → 15360000 ≤ header.number
    → (e : DispatchError) × (import_header (with_prover crate c) origin header proof s ≡ (err e, s))
import_header-ends crate c origin header proof s v le =
    elim (Result-cases (validate_header_to_import (with_prover crate c) header proof s).0) [
      | inl (_, fine) ↦ absurd (
          pow_fails crate c header proof s le
            (validate_pow (with_prover crate c) header proof s v fine))
      | inr (e, bad) ↦ refused crate c header origin proof s e bad
    ]
