-- ===== src/Ethereum/Ethash/Roots.antt =====
-- DAGS_MERKLE_ROOTS of parachain/primitives/ethereum/src/ethashdata.rs: one root for each epoch from
-- the first one on.
mod First
mod Second
mod Third
mod Fourth
use polkadot_ethereum.Prelude.{ℕ, List, ◌++◌, length, ◌≡◌, refl}
use polkadot_ethereum.Ethereum.Ethash.Roots.First.{first_roots}
use polkadot_ethereum.Ethereum.Ethash.Roots.Second.{second_roots}
use polkadot_ethereum.Ethereum.Ethash.Roots.Third.{third_roots}
use polkadot_ethereum.Ethereum.Ethash.Roots.Fourth.{fourth_roots}

abbrev pub dags_start_epoch : ℕ
dags_start_epoch = 0

unfoldable pub dags_merkle_roots : List ℕ
unfolding first_roots second_roots third_roots fourth_roots
dags_merkle_roots = first_roots ++ (second_roots ++ (third_roots ++ fourth_roots))

pub length-dags_merkle_roots : length dags_merkle_roots ≡ 512
unfolding dags_merkle_roots
length-dags_merkle_roots = refl
