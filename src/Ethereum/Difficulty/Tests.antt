-- ===== src/Ethereum/Difficulty/Tests.antt =====
-- The difficulty theorems at concrete headers.
use polkadot_ethereum.Ethereum.{Header}
use polkadot_ethereum.Prelude.{arith, ◌%◌, refl, some, ◌≤◌, none, ◌+◌, ◌≡◌, []}
use polkadot_ethereum.Ethereum.Difficulty.Formula.{calc_difficulty_antitone}
use polkadot_ethereum.Frame.{ok}
use polkadot_ethereum.Ethereum.Difficulty.{
  bomb_delay, period_count, calc_difficulty, mainnet, london, block_time_div_9, adjusted, sigma2,
  with_bomb,
}
use polkadot_ethereum.Prelude.Word.{u64_mod}
use polkadot_ethereum.Ethereum.Hashing.{has_ommers}

abbrev block : Header
block = record {
  parent_hash = 0;
  timestamp = 1000;
  number = 12965000;
  author = 0;
  transactions_root = 0;
  ommers_hash = 1;
  extra_data = [];
  state_root = 0;
  receipts_root = 0;
  logs_bloom = [];
  gas_used = 0;
  gas_limit = 5000;
  difficulty = 7000000;
  seal = [];
  base_fee = none;
}

delay_block : bomb_delay mainnet ((12965000 + 1) % u64_mod) ≡ some london
unfolding bomb_delay
delay_block = refl

periods_block : period_count 12965000 london ≤ 200
unfolding period_count
periods_block = omega arith

at_block : calc_difficulty mainnet 1009 block ≡ ok 1080745241
unfolding calc_difficulty bomb_delay block_time_div_9 adjusted sigma2 has_ommers period_count
    with_bomb
at_block = refl

at_later_block : calc_difficulty mainnet 1100 block ≡ ok 1080711071
unfolding calc_difficulty bomb_delay block_time_div_9 adjusted sigma2 has_ommers period_count
    with_bomb
at_later_block = refl

calc_difficulty_antitone_example : 1080711071 ≤ 1080745241
calc_difficulty_antitone_example =
    calc_difficulty_antitone mainnet 1009 1100 block london delay_block (omega arith) (omega arith)
      (omega arith) (omega arith) periods_block at_block at_later_block
